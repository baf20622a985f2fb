-- ===== src/Promotion/Disk/Paths.antt =====
-- Equality of paths, and what is read after a write.
use stock_fixer.Prelude.{
  ℕ, ◌≤◌, ◌<◌, ◌≡◌, refl, sym, ◌∙◌, inl, inr, true, false, none, some, List, [], ◌∷◌, String, arith,
  str_eq, eq_iff, length, Bool-cases, is_some,
}
use stock_fixer.Promotion.Disk.{FilePath, codes_eq, path_eq, get, delete, put}

pub codes_eq_refl : (xs : List ℕ) → codes_eq xs xs ≡ true
codes_eq_refl [] = refl
codes_eq_refl (x ∷ xs) = ground (arith, codes_eq_refl xs)

pub codes_eq→≡ : (xs ys : List ℕ) → codes_eq xs ys ≡ true → xs ≡ ys
codes_eq→≡ [] [] h = refl
codes_eq→≡ [] (y ∷ ys) h = ground arith
codes_eq→≡ (x ∷ xs) [] h = ground arith
codes_eq→≡ (x ∷ xs) (y ∷ ys) h = ground (arith, codes_eq→≡ xs ys)

pub str_eq_refl : (s : String) → str_eq s s ≡ true
str_eq_refl s = (eq_iff s s).1 refl

pub path_eq_refl : (p : FilePath) → path_eq p p ≡ true
unfolding path_eq
path_eq_refl p = rw (codes_eq_refl p.stem, str_eq_refl p.folder, str_eq_refl p.ext) refl

same_fields : (p q : FilePath) → p.stem ≡ q.stem → p.folder ≡ q.folder → p.ext ≡ q.ext → p ≡ q
same_fields p q a b c = λ i. record { folder = b i; stem = a i; ext = c i }

pub path_eq→≡ : (p q : FilePath) → path_eq p q ≡ true → p ≡ q
unfolding path_eq
path_eq→≡ p q h =
    let same_stem : codes_eq p.stem q.stem ≡ true = ground (arith, h) in
    let same_folder : str_eq p.folder q.folder ≡ true = ground (arith, h) in
    let same_ext : str_eq p.ext q.ext ≡ true = ground (arith, h) in
    same_fields p q (codes_eq→≡ p.stem q.stem same_stem) ((eq_iff p.folder q.folder).0 same_folder)
      ((eq_iff p.ext q.ext).0 same_ext)

pub path_eq-sym : (p q : FilePath) → path_eq p q ≡ path_eq q p
path_eq-sym p q = elim (Bool-cases (path_eq p q)) [
  | inl y ↦ rw (path_eq→≡ p q y) refl
  | inr n ↦ elim (Bool-cases (path_eq q p)) [
    | inl z ↦ rw (path_eq→≡ q p z) refl
    | inr m ↦ n ∙ sym m
  ]
]

module _ {C : Type 0} where
  pub get-delete_same : (p : FilePath) (fs : List (FilePath × C)) → get p (delete p fs) ≡ none
  unfolding get delete
  get-delete_same p [] = refl
  get-delete_same p ((q, c) ∷ fs) = ground (arith, get-delete_same p fs)

  pub get-delete_other :
      (p q : FilePath) (fs : List (FilePath × C))
      → path_eq p q ≡ false
      → get q (delete p fs) ≡ get q fs
  unfolding get delete
  get-delete_other p q [] h = refl
  get-delete_other p q ((r, c) ∷ fs) h = elim (Bool-cases (path_eq r p)) [
    | inl y ↦ rw (y, path_eq→≡ r p y, h) (get-delete_other p q fs h)
    | inr n ↦ rw n (ground (arith, get-delete_other p q fs h))
  ]

  pub get-put_same : (p : FilePath) (c : C) (fs : List (FilePath × C)) → get p (put p c fs) ≡ some c
  unfolding get
  get-put_same p c fs = rw (path_eq_refl p) refl

  pub get-put_other :
      (p q : FilePath) (c : C) (fs : List (FilePath × C))
      → path_eq p q ≡ false
      → get q (put p c fs) ≡ get q fs
  unfolding get
  get-put_other p q c fs h = rw h (get-delete_other p q fs h)

  -- A file that is there keeps its place in the list of the others.
  pub length-delete :
      (p : FilePath) (fs : List (FilePath × C))
      → is_some (get p fs) ≡ true
      → length (delete p fs) < length fs
  unfolding get delete
  length-delete p [] h = ground arith
  length-delete p ((q, c) ∷ fs) h = ground (arith, length-delete p fs, length-delete_le p fs)
    where
      length-delete_le :
          (q : FilePath) (gs : List (FilePath × C)) → length (delete q gs) ≤ length gs
      length-delete_le q [] = omega arith
      length-delete_le q ((r, c) ∷ gs) = ground (arith, length-delete_le q gs)
