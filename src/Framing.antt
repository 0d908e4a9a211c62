-- ===== src/Framing.antt =====
-- src/service/framing.rs: batching the messages of a stream. A stream that ends is the list of its
-- messages and the error that ends it, if one does; a released batch is the list of the messages
-- that leave with nothing awaited in between.
use lightwalletd_rs.Base.{
  ℕ, ◌+◌, ◌*◌, ◌≤◌, ◌<◌, ◌≡◌, refl, ap, ◌∙◌, true, false, ◌≢◌, Option, none, some, List, [], ◌∷◌,
  ◌++◌, leb, if◌then◌else◌, arith, Bool-cases, inl, inr, append_assoc,
}
use lightwalletd_rs.Status.{Status}

abbrev pub batch_bytes : ℕ
batch_bytes = 4 * 1024

-- What a source stream yields before it ends, and the error it ends with.
pub record Stream (T : Type 0) : Type 0 where
  pub messages : List T
  pub failure : Option Status

pub record FrameBatch (T : Type 0) : Type 0 where
  pub pending : List T
  pub bytes : ℕ

abbrev pub flatten {ℓ} : {A : Type ℓ} → List (List A) → List A
flatten [] = []
flatten (b ∷ bs) = b ++ flatten bs

module _ {T : Type 0} (encoded_len : T → ℕ) where
  abbrev pub new : FrameBatch T
  new = record { pending = []; bytes = 0 }

  -- Everything held, once it is worth a frame.
  abbrev pub hold : FrameBatch T → T → FrameBatch T
  hold batch message = record {
    pending = batch.pending ++ message ∷ [];
    bytes = batch.bytes + encoded_len message;
  }

  unfoldable pub push : FrameBatch T → T → Option (List T) × FrameBatch T
  push batch message =
      let held : FrameBatch T = hold batch message in
      if leb batch_bytes held.bytes then (some held.pending, new) else (none, held)

  -- The loop over the source; what is still held goes out at its end, and ahead of an error.
  unfoldable pub coalesce_loop : FrameBatch T → List T → List (List T)
  unfolding push
  coalesce_loop batch [] = batch.pending ∷ []
  coalesce_loop batch (message ∷ rest) =
      let (released, batch') = push batch message in
      elim released [
        | none ↦ coalesce_loop batch' rest
        | some ready ↦ ready ∷ coalesce_loop batch' rest
      ]

  unfoldable pub coalesce : Stream T → List (List T) × Option Status
  unfolding coalesce_loop
  coalesce source = (coalesce_loop new source.messages, source.failure)

  abbrev pub total_len : List T → ℕ
  total_len [] = 0
  total_len (m ∷ ms) = encoded_len m + total_len ms

  total_len-append : (xs ys : List T) → total_len (xs ++ ys) ≡ total_len xs + total_len ys
  total_len-append [] ys = omega arith
  total_len-append (x ∷ xs) ys = omega (arith, total_len-append xs ys)

  -- Each batch but the last is worth a frame, and the last is not.
  abbrev pub AreFrames : List (List T) → Type 0
  AreFrames [] = Unit
  AreFrames (b ∷ []) = total_len b < batch_bytes
  AreFrames (b ∷ b' ∷ bs) = (batch_bytes ≤ total_len b) × AreFrames (b' ∷ bs)

  AreFrames-cons :
      (b : List T) (bs : List (List T))
      → batch_bytes ≤ total_len b
      → bs ≢ []
      → AreFrames bs
      → AreFrames (b ∷ bs)
  AreFrames-cons b [] worth ne h = absurd (ne refl)
  AreFrames-cons b (b' ∷ bs) worth ne h = (worth, h)

  loop_full :
      (batch : FrameBatch T) (m : T) (ms : List T)
      → leb batch_bytes (batch.bytes + encoded_len m) ≡ true
      → coalesce_loop batch (m ∷ ms) ≡ (batch.pending ++ m ∷ []) ∷ coalesce_loop new ms
  unfolding coalesce_loop push
  loop_full batch m ms e =
      rw (e, coalesce_loop)
        (ap (λ b. (batch.pending ++ m ∷ []) ∷ coalesce_loop b ms) (rw (e, push)))

  loop_room :
      (batch : FrameBatch T) (m : T) (ms : List T)
      → leb batch_bytes (batch.bytes + encoded_len m) ≡ false
      → coalesce_loop batch (m ∷ ms) ≡ coalesce_loop (hold batch m) ms
  unfolding coalesce_loop push
  loop_room batch m ms e = rw (e, coalesce_loop) (ap (λ b. coalesce_loop b ms) (rw (e, push)))

  loop-ne-nil : (batch : FrameBatch T) (ms : List T) → coalesce_loop batch ms ≢ []
  unfolding coalesce_loop
  loop-ne-nil batch [] = λ h. cc h
  loop-ne-nil batch (m ∷ ms) = elim (Bool-cases (leb batch_bytes (batch.bytes + encoded_len m))) [
    | inl e ↦ rw (loop_full batch m ms e) (λ h. cc h)
    | inr e ↦ rw (loop_room batch m ms e) (loop-ne-nil (hold batch m) ms)
  ]

  loop-flatten :
      (batch : FrameBatch T) (ms : List T) → flatten (coalesce_loop batch ms) ≡ batch.pending ++ ms
  unfolding coalesce_loop
  loop-flatten batch [] = refl
  loop-flatten batch (m ∷ ms) = elim (Bool-cases (leb batch_bytes (batch.bytes + encoded_len m))) [
    | inl e ↦ rw (loop_full batch m ms e) (
        ap (λ r. (batch.pending ++ m ∷ []) ++ r) (loop-flatten new ms)
        ∙ append_assoc batch.pending (m ∷ []) ms)
    | inr e ↦
        rw (loop_room batch m ms e)
          (loop-flatten (hold batch m) ms ∙ append_assoc batch.pending (m ∷ []) ms)
  ]

  loop-AreFrames :
      (batch : FrameBatch T) (ms : List T)
      → batch.bytes ≡ total_len batch.pending
      → batch.bytes < batch_bytes
      → AreFrames (coalesce_loop batch ms)
  unfolding coalesce_loop
  loop-AreFrames batch [] counted small = omega arith
  loop-AreFrames batch (m ∷ ms) counted small =
      let grown = total_len-append batch.pending (m ∷ []) in
      elim (Bool-cases (leb batch_bytes (batch.bytes + encoded_len m))) [
        | inl e ↦ rw (loop_full batch m ms e) (
            AreFrames-cons (batch.pending ++ m ∷ []) (coalesce_loop new ms) (ground arith)
              (loop-ne-nil new ms) (loop-AreFrames new ms refl (omega arith)))
        | inr e ↦
            rw (loop_room batch m ms e)
              (loop-AreFrames (hold batch m) ms (omega arith) (ground arith))
      ]

  -- Batching delivers the messages of the source, all of them in their order, and then its error; each
  -- batch before the last holds at least 4096 encoded bytes, and the last one fewer.
  pub coalesce-transparent :
      (source : Stream T)
      → (flatten (coalesce source).0 ≡ source.messages)
        × ((coalesce source).1 ≡ source.failure)
        × AreFrames (coalesce source).0
  unfolding coalesce
  coalesce-transparent source = (
    loop-flatten new source.messages,
    refl,
    loop-AreFrames new source.messages refl (omega arith),
  )
