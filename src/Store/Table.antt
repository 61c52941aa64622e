-- ===== src/Store/Table.antt =====
-- What the statements of internal/store/sqlite.go use of SQLite: tables with an AUTOINCREMENT key,
-- in key order, and the ways a statement can fail at the driver.
use mathlib.Core.Option
use ocp_offline.Prelude.{
  ℕ, zero, suc, ◌+◌, ◌≤◌, ◌<◌, ◌≡◌, ◌≢◌, refl, sym, Bool, true, false, not, List, [], ◌∷◌, ◌++◌,
  Option, none, some, Result, ok, err, arith, nat_eq, ◌==◌, if◌then◌else◌, length, keep, All,
  All-append, Bool-cases, inl, inr,
}

-- A row knows its key, and takes another.
pub record Row (A : Type 0) : Type 0 where
  pub key : A → ℕ
  pub with_key : ℕ → A → A
  pub key-with_key : (n : ℕ) (a : A) → key (with_key n a) ≡ n

-- The rows, and the greatest key that was ever given (sqlite_sequence).
pub record Table (A : Type 0) : Type 0 where
  pub rows : List A
  pub seq : ℕ

abbrev pub empty : {A : Type 0} → Table A
empty = record { rows = []; seq = 0 }

-- What the driver reports: success, a refused statement, or a statement that was run and whose
-- result (last id, affected rows) cannot be had.
pub data Fault : Type 0 where
  no_fault at_exec after_exec : Fault

pub data StoreError : Type 0 where
  exec_failed result_failed query_failed not_found : StoreError

-- A statement that changes the state, behind `db.Exec`.
abbrev pub exec : {S B : Type 0} → Fault → S → (S → B × S) → Result StoreError B × S
exec no_fault s step = let (b, s') = step s in (ok b, s')
exec at_exec s step = (err exec_failed, s)
exec after_exec s step = let (b, s') = step s in (err result_failed, s')

-- `if rowsAffected == 0 { return ... not found }`
abbrev pub affected : {S : Type 0} → Result StoreError ℕ × S → Result StoreError (Unit {0}) × S
affected (ok zero, s) = (err not_found, s)
affected (ok (suc n), s) = (ok tt, s)
affected (err e, s) = (err e, s)

pub affected-state : {S : Type 0} (n : ℕ) (s : S) → (affected (ok n, s)).1 ≡ s
affected-state zero s = refl
affected-state (suc n) s = refl

pub affected-result :
    {S : Type 0} (n : ℕ) (s : S)
    → (affected (ok n, s)).0 ≡ (if n == 0 then err not_found else ok tt)
affected-result zero s = refl
affected-result (suc n) s = ground arith

-- A query, behind `db.Query` and `rows.Scan`.
abbrev pub query : {B : Type 0} → Fault → B → Result StoreError B
query no_fault b = ok b
query _ b = err query_failed

module _ {A : Type 0} where
  -- UPDATE ... WHERE
  unfoldable pub update_where : (A → Bool) → (A → A) → List A → List A
  update_where p f [] = []
  update_where p f (a ∷ as') = (if p a then f a else a) ∷ update_where p f as'

  unfoldable pub count_where : (A → Bool) → List A → ℕ
  count_where p [] = 0
  count_where p (a ∷ as') = (if p a then 1 else 0) + count_where p as'

  -- The first row that a SELECT returns.
  unfoldable pub first_where : (A → Bool) → List A → Option A
  first_where p [] = none
  first_where p (a ∷ as') = if p a then some a else first_where p as'

  pub first_where-append :
      (p : A → Bool) (xs ys : List A)
      → first_where p (xs ++ ys)
        ≡ elim (first_where p xs) [ some a ↦ some a | none ↦ first_where p ys ]
  unfolding first_where
  first_where-append p [] ys = refl
  first_where-append p (x ∷ xs) ys = ground (arith, first_where-append p xs ys)

  pub first_where-eq-none :
      (p : A → Bool) (xs : List A) → All (λ a. p a ≡ false) xs → first_where p xs ≡ none
  unfolding first_where
  first_where-eq-none p [] h = refl
  first_where-eq-none p (x ∷ xs) h = ground (arith, first_where-eq-none p xs h.1)

  pub count-eq-zero : (p : A → Bool) (xs : List A) → count_where p xs ≡ 0 → first_where p xs ≡ none
  unfolding count_where first_where
  count-eq-zero p [] h = refl
  count-eq-zero p (x ∷ xs) h = ground (arith, count-eq-zero p xs)

  pub count_where-keep : (p : A → Bool) (xs : List A) → count_where p xs ≡ length (keep p xs)
  unfolding count_where
  count_where-keep p [] = refl
  count_where-keep p (x ∷ xs) = ground (arith, count_where-keep p xs)

  -- DELETE ... WHERE
  abbrev pub delete_where : (A → Bool) → List A → List A
  delete_where p = keep (λ a. not (p a))

  -- Rows that the deletion spares are found as before.
  pub first_where-delete_other :
      (p q : A → Bool) (xs : List A)
      → All (λ a. p a ≡ true → q a ≡ false) xs
      → first_where p (delete_where q xs) ≡ first_where p xs
  unfolding first_where
  first_where-delete_other p q [] h = refl
  first_where-delete_other p q (x ∷ xs) h = elim (Bool-cases (p x)) [
    | inl e ↦ ground (arith, h.0 e)
    | inr e ↦ ground (arith, first_where-delete_other p q xs h.1)
  ]

  -- Rows that the deletion takes are not found.
  pub first_where-delete_all :
      (p q : A → Bool) (xs : List A)
      → All (λ a. p a ≡ true → q a ≡ true) xs
      → first_where p (delete_where q xs) ≡ none
  unfolding first_where
  first_where-delete_all p q [] h = refl
  first_where-delete_all p q (x ∷ xs) h = elim (Bool-cases (p x)) [
    | inl e ↦ rw (h.0 e) (first_where-delete_all p q xs h.1)
    | inr e ↦ ground (arith, first_where-delete_all p q xs h.1)
  ]

module _ {A : Type 0} ⦃r : Row A⦄ where
  -- INSERT with no key given.
  unfoldable pub insert_row : A → Table A → ℕ × Table A
  insert_row a t =
      let n = suc t.seq in (n, record { rows = t.rows ++ r.with_key n a ∷ []; seq = n })

  abbrev pub has_key : ℕ → A → Bool
  has_key n a = r.key a == n

  -- Every key was given by the table, and no key twice.
  abbrev pub NoKey : ℕ → List A → Type 0
  NoKey n = All (λ a. r.key a ≢ n)

  abbrev pub UniqueKeys : List A → Type 0
  UniqueKeys [] = Unit
  UniqueKeys (a ∷ as') = NoKey (r.key a) as' × UniqueKeys as'

  pub record IsKeyed (t : Table A) : Type 0 where
    pub given : All (λ a. r.key a ≤ t.seq) t.rows
    pub unique : UniqueKeys t.rows

  -- What `get by key` shows after the statements on keys.
  abbrev pub by_key : ℕ → List A → Option A
  by_key n = first_where (has_key n)

  NoKey-none : (n : ℕ) (xs : List A) → NoKey n xs → by_key n xs ≡ none
  unfolding first_where
  NoKey-none n [] h = refl
  NoKey-none n (x ∷ xs) h = ground (arith, NoKey-none n xs h.1)

  above-NoKey : (n m : ℕ) (xs : List A) → All (λ a. r.key a ≤ n) xs → n < m → NoKey m xs
  above-NoKey n m [] h k = tt
  above-NoKey n m (x ∷ xs) h k = ((λ e. omega arith), above-NoKey n m xs h.1 k)

  pub key-insert_row : (a : A) (t : Table A) → (insert_row a t).0 ≡ suc t.seq
  unfolding insert_row
  key-insert_row a t = refl

  pub none_above :
      (a : A) (t : Table A) (n : ℕ) → IsKeyed t → suc t.seq ≡ n → by_key n t.rows ≡ none
  none_above a t n h e = NoKey-none n t.rows (above-NoKey t.seq n t.rows h.given (omega arith))

  All-le_suc : (n : ℕ) (xs : List A) → All (λ a. r.key a ≤ n) xs → All (λ a. r.key a ≤ suc n) xs
  All-le_suc n [] h = tt
  All-le_suc n (x ∷ xs) h = (omega arith, All-le_suc n xs h.1)

  unique_last :
      (xs : List A) (a : A) → NoKey (r.key a) xs → UniqueKeys xs → UniqueKeys (xs ++ a ∷ [])
  unique_last [] a no_key u = (tt, tt)
  unique_last (x ∷ xs) a no_key u = (
    All-append (λ y. r.key y ≢ r.key x) xs (a ∷ []) u.0 ((λ e. no_key.0 (sym e)), tt),
    unique_last xs a no_key.1 u.1,
  )

  -- A new row has a key of its own, and is found by it; no other row changes.
  pub by_key-insert_row :
      (a : A) (t : Table A) (n : ℕ)
      → IsKeyed t
      → by_key n (insert_row a t).1.rows
        ≡ (if (insert_row a t).0 == n then some (r.with_key n a) else by_key n t.rows)
  unfolding insert_row first_where
  by_key-insert_row a t n h =
      rw first_where-append (ground (arith, r.key-with_key (suc t.seq) a, none_above a t n h))

  pub insert_row-IsKeyed : (a : A) (t : Table A) → IsKeyed t → IsKeyed (insert_row a t).1
  unfolding insert_row
  insert_row-IsKeyed a t h = record {
    given =
        All-append _ t.rows _ (All-le_suc t.seq t.rows h.given)
          (ground (arith, r.key-with_key (suc t.seq) a), tt);
    unique =
        unique_last t.rows (r.with_key (suc t.seq) a)
          (rw (r.key-with_key (suc t.seq) a)
            (above-NoKey t.seq (suc t.seq) t.rows h.given (omega arith)))
          h.unique;
  }

  -- An update by key that leaves the key alone.
  pub by_key-update :
      (m n : ℕ) (f : A → A) (xs : List A)
      → ((a : A) → r.key (f a) ≡ r.key a)
      → by_key n (update_where (has_key m) f xs)
        ≡ (if m == n then Option.map f (by_key n xs) else by_key n xs)
  unfolding first_where update_where
  by_key-update m n f [] k = ground arith
  by_key-update m n f (x ∷ xs) k = ground (arith, by_key-update m n f xs k, k x)
