-- ===== src/DistributedInsert/Actions.antt =====
-- A method on mutable state: it passes the state on, and may throw. The state comes back after an
-- exception too, since what was written stays written.
use duckdb_paimon.Prelude.{◌≡◌, refl, ap, Bool, true, false}
use duckdb_paimon.Sql.{Exception, Result, ok, throw}

abbrev pub Action : Type 0 → Type 0 → Type 0
Action S A = S → Result A × S

module _ {S : Type 0} where
  abbrev pub pure : {A : Type 0} → A → Action S A
  pure a s = (ok a, s)

  -- A step that only reads the state, and may throw.
  abbrev pub reads : {A : Type 0} → (S → Result A) → Action S A
  reads f s = (f s, s)

  abbrev pub modify : (S → S) → Action S (Unit {0})
  modify f s = (ok tt, f s)

  abbrev pub next_of : {A B : Type 0} → Result A × S → (A → Action S B) → Result B × S
  next_of (ok a, s) f = f a s
  next_of (throw e, s) f = (throw e, s)

  -- `catch (...) { handler; throw; }`
  abbrev pub rethrow_after : {A : Type 0} → Action S (Unit {0}) → Result A × S → Result A × S
  rethrow_after handler (ok a, s) = (ok a, s)
  rethrow_after handler (throw e, s) = (throw e, (handler s).1)

  abbrev pub on_throw : {A : Type 0} → Action S A → Action S (Unit {0}) → Action S A
  on_throw m handler s = rethrow_after handler (m s)

infixl 5 ◌>>=◌ ◌>>◌
abbrev pub ◌>>=◌ : {S A B : Type 0} → Action S A → (A → Action S B) → Action S B
◌>>=◌ m f s = next_of (m s) f

abbrev pub ◌>>◌ : {S A B : Type 0} → Action S A → Action S B → Action S B
m >> k = m >>= λ _. k

abbrev pub raise_if : {S : Type 0} → Bool → Exception → Action S (Unit {0})
raise_if true e s = (throw e, s)
raise_if false e s = (ok tt, s)

module _ {S A B : Type 0} where
  -- A chain that ends well has a first part that ended well, in the state that the rest went on from.
  pub next_of-returns :
      (x : Result A × S) (f : A → Action S B) {b : B} {s' : S}
      → next_of x f ≡ (ok b, s')
      → (a : A) × (s : S) × (x ≡ (ok a, s)) × (f a s ≡ (ok b, s'))
  next_of-returns (ok a, s) f h = (a, s, refl, h)
  next_of-returns (throw e, s) f h = cc

  -- What the first part and the rest keep, the chain keeps.
  pub next_of-keeps {ℓ} :
      (P : S → Type ℓ) (x : Result A × S) (f : A → Action S B)
      → P x.1
      → ((a : A) (s : S) → x ≡ (ok a, s) → P s → P (f a s).1)
      → P (next_of x f).1
  next_of-keeps P (ok a, s) f h k = k a s refl h
  next_of-keeps P (throw e, s) f h k = h

  -- The same of a first part that only reads, and of a check.
  pub reads-returns :
      (x : Result A) (s : S) (f : A → Action S B) {b : B} {s' : S}
      → next_of (x, s) f ≡ (ok b, s')
      → (a : A) × (x ≡ ok a) × (f a s ≡ (ok b, s'))
  reads-returns (ok a) s f h = (a, refl, h)
  reads-returns (throw e) s f h = cc

pub raise_if-passes :
    {S B : Type 0} (bad : Bool) (e : Exception) (s : S) (f : Unit {0} → Action S B) {b : B} {s' : S}
    → next_of (raise_if bad e s) f ≡ (ok b, s')
    → (bad ≡ false) × (f tt s ≡ (ok b, s'))
raise_if-passes true e s f h = cc
raise_if-passes false e s f h = (refl, h)

pub raise_if-ends :
    {S : Type 0} (bad : Bool) (e : Exception) (s : S) {u : Unit {0}} {s' : S}
    → raise_if bad e s ≡ (ok u, s')
    → (bad ≡ false) × (s ≡ s')
raise_if-ends true e s h = cc
raise_if-ends false e s h = (refl, ap (λ x. x.1) h)

-- A property of the state that a chain keeps, by its first part: one that only reads, or a check.
module _ {ℓ} {S A B : Type 0} (P : S → Type ℓ) where
  pub reads-keeps :
      (r : Result A) (s : S) (f : A → Action S B)
      → P s
      → ((a : A) → r ≡ ok a → P (f a s).1)
      → P (next_of (r, s) f).1
  reads-keeps (ok a) s f h k = k a refl
  reads-keeps (throw e) s f h k = h

pub check-keeps {ℓ} :
    {S B : Type 0} (P : S → Type ℓ) (bad : Bool) (e : Exception) (s : S) (f : Unit {0} → Action S B)
    → P s
    → (bad ≡ false → P (f tt s).1)
    → P (next_of (raise_if bad e s) f).1
check-keeps P true e s f h k = h
check-keeps P false e s f h k = k refl

pub raise_if-keeps {ℓ} :
    {S : Type 0} (P : S → Type ℓ) (bad : Bool) (e : Exception) (s : S)
    → P s
    → P (raise_if bad e s).1
raise_if-keeps P true e s h = h
raise_if-keeps P false e s h = h

pub rethrow_after-keeps {ℓ} :
    {S A : Type 0} (P : S → Type ℓ) (handler : Action S (Unit {0})) (x : Result A × S)
    → P x.1
    → P (handler x.1).1
    → P (rethrow_after handler x).1
rethrow_after-keeps P handler (ok a, s) h k = h
rethrow_after-keeps P handler (throw e, s) h k = k

-- How a chain ends, by how its first part ends.
module _ {ℓ} {S A B : Type 0} (Q : Result B × S → Type ℓ) where
  pub next_of-cases :
      (x : Result A × S) (f : A → Action S B)
      → ((e : Exception) (s : S) → x ≡ (throw e, s) → Q (throw e, s))
      → ((a : A) (s : S) → x ≡ (ok a, s) → Q (f a s))
      → Q (next_of x f)
  next_of-cases (ok a, s) f h k = k a s refl
  next_of-cases (throw e, s) f h k = h e s refl

  pub reads-cases :
      (r : Result A) (s : S) (f : A → Action S B)
      → ((e : Exception) → r ≡ throw e → Q (throw e, s))
      → ((a : A) → r ≡ ok a → Q (f a s))
      → Q (next_of (r, s) f)
  reads-cases (ok a) s f h k = k a refl
  reads-cases (throw e) s f h k = h e refl

pub check-cases {ℓ} :
    {S B : Type 0} (Q : Result B × S → Type ℓ) (bad : Bool) (e : Exception) (s : S)
    (f : Unit {0} → Action S B)
    → (bad ≡ true → Q (throw e, s))
    → (bad ≡ false → Q (f tt s))
    → Q (next_of (raise_if bad e s) f)
check-cases Q true e s f h k = h refl
check-cases Q false e s f h k = k refl

pub rethrow_after-cases {ℓ} :
    {S A B : Type 0} (Q : Result B × S → Type ℓ) (x : Result A × S) (handler : Action S (Unit {0}))
    (f : A → Action S B)
    → ((e : Exception) (s : S) → x ≡ (throw e, s) → Q (throw e, (handler s).1))
    → ((a : A) (s : S) → x ≡ (ok a, s) → Q (f a s))
    → Q (next_of (rethrow_after handler x) f)
rethrow_after-cases Q (ok a, s) handler f h k = k a s refl
rethrow_after-cases Q (throw e, s) handler f h k = h e s refl
