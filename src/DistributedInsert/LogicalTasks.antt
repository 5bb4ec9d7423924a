-- ===== src/DistributedInsert/LogicalTasks.antt =====
-- Which attempts are of the same logical task: `VaneLogicalTaskIdentity` on attempts as Vane names
-- them, the query, the fragment execution, the partition and the attempt number with dots between.
use duckdb_paimon.Prelude.{
  ◌≡◌, ◌↔◌, refl, sym, ap, ap₂, ◌∙◌, Bool, true, false, not, ◌&&◌, List, [], ◌∷◌, ◌++◌, Option,
  none, some, arith, eqb, is_empty,
}
use duckdb_paimon.Sql.{ok, >>=-eq-ok}
use duckdb_paimon.TablePath.{Text}
use duckdb_paimon.DistributedScan.SplitIds.{all_digits}
use duckdb_paimon.DistributedInsert.Identities.{
  Platform, dot, bad_start, validate_component, after_prefix, logical_of, logical_from,
  logical_task_identity,
}

unfoldable pub no_dot : Text → Bool
no_dot [] = true
no_dot (c ∷ text) = not (eqb c b'.') && no_dot text

-- Splitting gives back the parts that have no dot, the last of which is not empty.
pub record Splits (p : Platform) : Type 0 where
  pub split_three :
      (f c a : Text)
      → no_dot f ≡ true
      → no_dot c ≡ true
      → no_dot a ≡ true
      → is_empty a ≡ false
      → p.split_dots (f ++ (dot ++ (c ++ (dot ++ a)))) ≡ f ∷ c ∷ a ∷ []

-- A decimal numeral without a leading zero.
pub record IsNumeral (component : Text) : Type 0 where
  pub start : bad_start component ≡ false
  pub digits : all_digits component ≡ true

abbrev pub attempt : Text → Text → Text → Text → Text
attempt query fragment partition number =
    (query ++ dot) ++ (fragment ++ (dot ++ (partition ++ (dot ++ number))))

digits-no_dot : (text : Text) → all_digits text ≡ true → no_dot text ≡ true
unfolding no_dot all_digits
digits-no_dot [] h = refl
digits-no_dot (c ∷ text) h = ground (arith, digits-no_dot text)

numeral-filled : (text : Text) → IsNumeral text → is_empty text ≡ false
unfolding bad_start
numeral-filled [] h = ground (arith, h.start)
numeral-filled (c ∷ text) h = refl

numeral-valid : (text : Text) → IsNumeral text → validate_component text ≡ ok tt
unfolding validate_component
numeral-valid text h = rw (h.start, h.digits)

pub after_prefix-append : (prefix rest : Text) → after_prefix prefix (prefix ++ rest) ≡ some rest
unfolding after_prefix
after_prefix-append [] rest = refl
after_prefix-append (c ∷ prefix) rest = ground (arith, after_prefix-append prefix rest)

-- The identity of a well-formed attempt is the query, the fragment and the partition.
pub logical_task_identity-attempt :
    (p : Platform) (q f c a : Text)
    → Splits p
    → is_empty q ≡ false
    → IsNumeral f
    → IsNumeral c
    → IsNumeral a
    → logical_task_identity p q (attempt q f c a) ≡ ok ((q ++ dot) ++ (f ++ (dot ++ c)))
unfolding logical_task_identity logical_from logical_of
logical_task_identity-attempt p q f c a splits filled hf hc ha = rw (
  filled,
  after_prefix-append (q ++ dot) (f ++ (dot ++ (c ++ (dot ++ a)))),
  splits.split_three f c a (digits-no_dot f hf.digits) (digits-no_dot c hc.digits)
      (digits-no_dot a ha.digits) (numeral-filled a ha),
  numeral-valid f hf,
  numeral-valid c hc,
  numeral-valid a ha,
)

append-cancel : (x y z : Text) → x ++ y ≡ x ++ z → y ≡ z
append-cancel [] y z h = h
append-cancel (c ∷ x) y z h = append-cancel x y z cc

digits-cut :
    (f g c d : Text)
    → all_digits f ≡ true
    → all_digits g ≡ true
    → f ++ (dot ++ c) ≡ g ++ (dot ++ d)
    → (f ≡ g) × (c ≡ d)
unfolding all_digits
digits-cut [] [] c d hf hg h = (refl, cc)
digits-cut [] (y ∷ g) c d hf hg h = let e : b'.' ≡ y = cc in absurd (ground arith)
digits-cut (x ∷ f) [] c d hf hg h = let e : x ≡ b'.' = cc in absurd (ground arith)
digits-cut (x ∷ f) (y ∷ g) c d hf hg h =
    let e : x ≡ y = cc in
    let (same, rest) = digits-cut f g c d (ground arith) (ground arith) cc in (ap₂ ◌∷◌ e same, rest)

-- Two well-formed attempts of a query, by numerals f, c, a and f', c', a', have the same logical task
-- if and only if they agree on the fragment and on the partition: the attempt number does not count,
-- and different fragments or partitions are never confused.
pub logical_task_identity-IsSame :
    (p : Platform) (q f c a f' c' a' : Text)
    → Splits p
    → is_empty q ≡ false
    → (IsNumeral f × IsNumeral c × IsNumeral a)
    → (IsNumeral f' × IsNumeral c' × IsNumeral a')
    → (logical_task_identity p q (attempt q f c a) ≡ logical_task_identity p q (attempt q f' c' a'))
      ↔ ((f ≡ f') × (c ≡ c'))
logical_task_identity-IsSame p q f c a f' c' a' splits filled h h' =
    let e = logical_task_identity-attempt p q f c a splits filled h.0 h.1 h.2 in
    let e' = logical_task_identity-attempt p q f' c' a' splits filled h'.0 h'.1 h'.2 in
    (
      λ same.
          let texts : (q ++ dot) ++ (f ++ (dot ++ c)) ≡ (q ++ dot) ++ (f' ++ (dot ++ c')) = cc in
          digits-cut f f' c c' h.0.digits h'.0.digits (append-cancel (q ++ dot) _ _ texts),
      λ (ef, ec). e ∙ ap₂ (λ x y. ok ((q ++ dot) ++ (x ++ (dot ++ y)))) ef ec ∙ sym e',
    )

-- A task that has an identity has a query, and its identity is not empty.
pub logical-filled :
    (p : Platform) (q t : Text) (l : Text)
    → logical_task_identity p q t ≡ ok l
    → (is_empty q ≡ false) × (is_empty l ≡ false)
unfolding logical_task_identity logical_from logical_of
logical-filled p [] t l h = cc
logical-filled p (c ∷ q) t l h = (refl, from_rest (after_prefix ((c ∷ q) ++ dot) t) h)
  where
    from_parts : (parts : List Text) → logical_of ((c ∷ q) ++ dot) parts ≡ ok l → is_empty l ≡ false
    from_parts [] h = cc
    from_parts (f ∷ []) h = cc
    from_parts (f ∷ k ∷ []) h = cc
    from_parts (f ∷ k ∷ a ∷ []) h =
        let (u, e1, h1) = >>=-eq-ok (validate_component f) _ h in
        let (v, e2, h2) = >>=-eq-ok (validate_component k) _ h1 in
        let (w, e3, h3) = >>=-eq-ok (validate_component a) _ h2 in
        let e : ((c ∷ q) ++ dot) ++ (f ++ (dot ++ k)) ≡ l = cc in ap is_empty (sym e)
    from_parts (f ∷ k ∷ a ∷ b ∷ rest) h = cc

    from_rest :
        (rest : Option Text)
        → logical_from p.split_dots ((c ∷ q) ++ dot) rest ≡ ok l
        → is_empty l ≡ false
    from_rest none h = cc
    from_rest (some rest) h = from_parts (p.split_dots rest) h
