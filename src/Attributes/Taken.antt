-- ===== src/Attributes/Taken.antt =====
-- The loop of ReadAttributes over given records.
use dq_lang.Attributes.State.{IfAttributes}
use dq_lang.Attributes.Read.{is_attribute, read_attribute, read_attributes}
use dq_lang.Attributes.Written.{opt}
use dq_lang.DqmIf.Reader.{Reader, next_rec, Read}
use dq_lang.DqmIf.Stream.{Rec}
use dq_lang.Prelude.{
  ℕ, zero, suc, ◌<◌, ◌≡◌, refl, ◌∙◌, ap, Bool, true, false, some, List, [], ◌∷◌, ◌++◌, arith, Bytes,
  length,
}
use dq_lang.TypeSpec.Records.{IsRec, Ahead}

-- The current record is the first of these, and the others are ahead.
abbrev pub Standing : List Rec → Reader → Reader → Type 0
Standing [] n q = n ≡ q
Standing ((recid, d) ∷ rs) n q = IsRec n recid d × Ahead rs n q

-- A round of the loop at this record.
pub record Taken (recid : ℕ) (d : Bytes) (a b : IfAttributes) : Type 0 where
  pub known : is_attribute recid ≡ true
  pub taken : (n : Reader) → IsRec n recid d → read_attribute n a ≡ (n, some b)

abbrev pub AllTaken : IfAttributes → List Rec → IfAttributes → Type 0
AllTaken a [] b = a ≡ b
AllTaken a ((recid, d) ∷ rs) b = (c : IfAttributes) × Taken recid d a c × AllTaken c rs b

pub AllTaken-append :
    (a b c : IfAttributes) (xs ys : List Rec)
    → AllTaken a xs b
    → AllTaken b ys c
    → AllTaken a (xs ++ ys) c
AllTaken-append a b c [] ys e t = rw e t
AllTaken-append a b c ((recid, d) ∷ xs) ys (m, one, more) t =
    (m, one, AllTaken-append m b c xs ys more t)

pub AllTaken-opt :
    (b : Bool) (recid : ℕ) (d : Bytes) (a c : IfAttributes)
    → Taken recid d a c
    → (b ≡ false → a ≡ c)
    → AllTaken a (opt b (recid, d)) c
AllTaken-opt true recid d a c t same = (c, t, refl)
AllTaken-opt false recid d a c t same = same refl

-- NextRec in front of at least one record.
pub advance :
    (rs : List Rec) (recid : ℕ) (d : Bytes) (tail : List Rec) (n q : Reader)
    → Ahead (rs ++ (recid, d) ∷ tail) n q
    → ((next_rec n).1 ≡ true) × Standing (rs ++ (recid, d) ∷ tail) (next_rec n).0 q
advance [] recid d tail n q (ok, h, a) = (ok, (h, a))
advance ((id, x) ∷ rs) recid d tail n q (ok, h, a) = (ok, (h, a))

read_attributes_step :
    (f : ℕ) (n : Reader) (a c : IfAttributes)
    → is_attribute n.recid ≡ true
    → read_attribute n a ≡ (n, some c)
    → (next_rec n).1 ≡ true
    → read_attributes (suc f) n a ≡ read_attributes f (next_rec n).0 c
unfolding read_attributes
read_attributes_step f n a c goes_on got ok =
    rw (read_attributes, goes_on, got, got, ok)
      (ap (λ (x : Read IfAttributes). read_attributes f (next_rec x.0).0 c) got)

-- The loop takes the records and stops at one that is no attribute.
pub read_attributes-AllTaken :
    (rs : List Rec) (f : ℕ) (n q : Reader) (a b : IfAttributes) (recid : ℕ) (d : Bytes)
    (tail : List Rec)
    → AllTaken a rs b
    → is_attribute recid ≡ false
    → length rs < f
    → Standing (rs ++ (recid, d) ∷ tail) n q
    → (m : Reader) × (read_attributes f n a ≡ some (m, some b)) × Standing ((recid, d) ∷ tail) m q
unfolding read_attributes
read_attributes-AllTaken rs zero n q a b recid d tail t other enough st = absurd (omega arith)
read_attributes-AllTaken [] (suc f) n q a b recid d tail e other enough (h, later) =
    let stop : is_attribute n.recid ≡ false = ap is_attribute h.same_id ∙ other in
    (n, rw (read_attributes, stop, e), (h, later))
read_attributes-AllTaken ((id, x) ∷ rs) (suc f) n q a b recid d tail (c, one, more) other enough
      (h, later) =
    let goes_on : is_attribute n.recid ≡ true = ap is_attribute h.same_id ∙ one.known in
    let got = one.taken n h in
    let (ok, st) = advance rs recid d tail n q later in
    let (m, e, behind) =
      read_attributes-AllTaken rs f (next_rec n).0 q c b recid d tail more other (omega arith) st in
    (m, read_attributes_step f n a c goes_on got ok ∙ e, behind)
