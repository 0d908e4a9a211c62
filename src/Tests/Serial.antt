-- ===== src/Tests/Serial.antt =====
-- A small self-delimiting serialisation, from which a concrete block codec is built.
use lightwalletd_rs.Base.{ℕ, zero, suc, ◌≡◌, refl, Option, none, some, List, [], ◌∷◌, length}
use lightwalletd_rs.Base.Bytes.{Bytes}

pub record Serial (A : Type 0) : Type 0 where
  pub put : A → Bytes → Bytes
  pub get : Bytes → Option (A × Bytes)
  pub get-put : (a : A) (rest : Bytes) → get (put a rest) ≡ some (a, rest)

abbrev head_byte : Bytes → Option (ℕ × Bytes)
head_byte [] = none
head_byte (b ∷ bs) = some (b, bs)

abbrev pub number : Serial ℕ
number = record { put = λ n rest. n ∷ rest; get = head_byte; get-put = λ n rest. refl }

module _ {A B : Type 0} (s : Serial A) (t : Serial B) where
  abbrev put_pair : A × B → Bytes → Bytes
  put_pair (a, b) rest = s.put a (t.put b rest)

  abbrev then_second : A → Option (B × Bytes) → Option ((A × B) × Bytes)
  then_second a none = none
  then_second a (some (b, rest)) = some ((a, b), rest)

  abbrev then_first : Option (A × Bytes) → Option ((A × B) × Bytes)
  then_first none = none
  then_first (some (a, rest)) = then_second a (t.get rest)

  pub get_pair-put_pair :
      (p : A × B) (rest : Bytes) → then_first (s.get (put_pair p rest)) ≡ some (p, rest)
  get_pair-put_pair (a, b) rest = rw (s.get-put a (t.put b rest), t.get-put b rest)

  abbrev pub pair : Serial (A × B)
  pair = record {
    put = put_pair;
    get = λ bytes. then_first (s.get bytes);
    get-put = get_pair-put_pair;
  }

module _ {A : Type 0} (s : Serial A) where
  abbrev put_all : List A → Bytes → Bytes
  put_all [] rest = rest
  put_all (a ∷ xs) rest = s.put a (put_all xs rest)

  abbrev cons_read : A → Option (List A × Bytes) → Option (List A × Bytes)
  cons_read a none = none
  cons_read a (some (xs, rest)) = some (a ∷ xs, rest)

  abbrev get_all : ℕ → Bytes → Option (List A × Bytes)
  get_all zero bytes = some ([], bytes)
  get_all (suc n) bytes = elim (s.get bytes) [
    | none ↦ none
    | some (a, rest) ↦ cons_read a (get_all n rest)
  ]

  pub get_all-put_all :
      (xs : List A) (rest : Bytes) → get_all (length xs) (put_all xs rest) ≡ some (xs, rest)
  get_all-put_all [] rest = refl
  get_all-put_all (a ∷ xs) rest = rw (s.get-put a (put_all xs rest), get_all-put_all xs rest)

  abbrev get_list : Bytes → Option (List A × Bytes)
  get_list [] = none
  get_list (n ∷ bytes) = get_all n bytes

  abbrev pub list : Serial (List A)
  list = record {
    put = λ xs rest. length xs ∷ put_all xs rest;
    get = get_list;
    get-put = get_all-put_all;
  }

  abbrev put_option : Option A → Bytes → Bytes
  put_option none rest = 0 ∷ rest
  put_option (some a) rest = 1 ∷ s.put a rest

  abbrev some_read : Option (A × Bytes) → Option (Option A × Bytes)
  some_read none = none
  some_read (some (a, rest)) = some (some a, rest)

  abbrev get_option : Bytes → Option (Option A × Bytes)
  get_option [] = none
  get_option (zero ∷ rest) = some (none, rest)
  get_option (suc n ∷ rest) = some_read (s.get rest)

  pub get_option-put_option :
      (o : Option A) (rest : Bytes) → get_option (put_option o rest) ≡ some (o, rest)
  get_option-put_option none rest = refl
  get_option-put_option (some a) rest = rw (s.get-put a rest)

  abbrev pub option : Serial (Option A)
  option = record { put = put_option; get = get_option; get-put = get_option-put_option }

module _ {A B : Type 0} (to : A → B) (from : B → A) (from-to : (a : A) → from (to a) ≡ a) where
  abbrev from_read : Option (B × Bytes) → Option (A × Bytes)
  from_read none = none
  from_read (some (b, rest)) = some (from b, rest)

  pub via-get-put :
      (s : Serial B) (a : A) (rest : Bytes) → from_read (s.get (s.put (to a) rest)) ≡ some (a, rest)
  via-get-put s a rest = rw (s.get-put (to a) rest, from-to a)

  abbrev pub via : Serial B → Serial A
  via s = record {
    put = λ a rest. s.put (to a) rest;
    get = λ bytes. from_read (s.get bytes);
    get-put = via-get-put s;
  }
