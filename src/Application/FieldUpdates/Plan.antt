-- ===== src/Application/FieldUpdates/Plan.antt =====
-- What the planned changes of an account's fields make of the stored list.
use text.Mathlib.TextEquality.{eq_iff}
use mathlib.Core.List.{append-nil, append_assoc}
use emumet.Prelude.{
  ℕ, suc, ◌≡◌, refl, sym, ap, ◌∙◌, arith, false, not, List, [], ◌∷◌, ◌++◌, map, ◌==◌, ==_refl,
  if◌then◌else◌, filter, inl, inr, Bool-cases, All, All-append,
}
use emumet.Kernel.Metadata.{Metadata, MetadataId}
use emumet.Application.Details.{AccountFieldDto}
use emumet.Application.FieldUpdates.{
  FieldUpdate, update_field, delete_field, create_field, has_changed, deletions, creations,
  plan_field_updates, field_dto,
}

-- a stored field: its id, its label and its content
abbrev pub Stored : Type 0
Stored = MetadataId × AccountFieldDto

abbrev pub stored : Metadata → Stored
stored field = (field.id, field_dto field)

abbrev replace : MetadataId → AccountFieldDto → List Stored → List Stored
replace id field [] = []
replace id field ((i, f) ∷ rest) = (if i == id then (i, field) else (i, f)) ∷ replace id field rest

abbrev drop_id : MetadataId → List Stored → List Stored
drop_id id = filter λ (s : Stored). not (s.0 == id)

-- the effect of the operations, where a created field gets an id
abbrev pub apply_plan : (ℕ → MetadataId) → List FieldUpdate → List Stored → List Stored
apply_plan fresh [] fields = fields
apply_plan fresh (update_field id label content ∷ plan) fields =
    apply_plan fresh plan (replace id (record { label = label; content = content }) fields)
apply_plan fresh (delete_field id ∷ plan) fields = apply_plan fresh plan (drop_id id fields)
apply_plan fresh (create_field label content ∷ plan) fields =
    apply_plan (λ n. fresh (suc n)) plan
      (fields ++ (fresh 0, record { label = label; content = content }) ∷ [])

-- the pairs keep their ids, the fields behind them are gone, and the rest is new
abbrev pub paired : (ℕ → MetadataId) → List Metadata → List AccountFieldDto → List Stored
paired fresh [] [] = []
paired fresh [] (next ∷ submitted) = (fresh 0, next) ∷ paired (λ n. fresh (suc n)) [] submitted
paired fresh (current ∷ existing) [] = []
paired fresh (current ∷ existing) (next ∷ submitted) =
    (current.id, next) ∷ paired fresh existing submitted

-- the ids of a list differ
abbrev pub HasDistinctIds : List Metadata → Type 0
HasDistinctIds [] = Unit
HasDistinctIds (current ∷ existing) =
    All (λ (other : Metadata). (current.id == other.id) ≡ false) existing × HasDistinctIds existing

-- no field of a list has the id
abbrev Lacks : MetadataId → List Stored → Type 0
Lacks id = All λ (s : Stored). (s.0 == id) ≡ false

replace-rest :
    (id : MetadataId) (new : AccountFieldDto) (rest : List Stored)
    → Lacks id rest
    → replace id new rest ≡ rest
replace-rest id new [] k = refl
replace-rest id new (r ∷ rest) k = rw (k.0, replace-rest id new rest k.1) refl

replace-front :
    (id : MetadataId) (new old : AccountFieldDto) (front rest : List Stored)
    → Lacks id front
    → Lacks id rest
    → replace id new (front ++ (id, old) ∷ rest) ≡ front ++ (id, new) ∷ rest
replace-front id new old [] rest h k = rw (==_refl id, replace-rest id new rest k) refl
replace-front id new old (f ∷ front) rest h k =
    rw (h.0, replace-front id new old front rest h.1 k) refl

drop_id-rest : (id : MetadataId) (rest : List Stored) → Lacks id rest → drop_id id rest ≡ rest
drop_id-rest id [] k = refl
drop_id-rest id (r ∷ rest) k = rw (k.0, drop_id-rest id rest k.1) refl

drop_id-front :
    (id : MetadataId) (old : AccountFieldDto) (front rest : List Stored)
    → Lacks id front
    → Lacks id rest
    → drop_id id (front ++ (id, old) ∷ rest) ≡ front ++ rest
drop_id-front id old [] rest h k = rw (==_refl id, drop_id-rest id rest k) refl
drop_id-front id old (f ∷ front) rest h k = rw (h.0, drop_id-front id old front rest h.1 k) refl

apply_plan-creations :
    (fresh : ℕ → MetadataId) (submitted : List AccountFieldDto) (front : List Stored)
    → apply_plan fresh (creations submitted) front ≡ front ++ paired fresh [] submitted
apply_plan-creations fresh [] front = sym (append-nil front)
apply_plan-creations fresh (next ∷ submitted) front =
    apply_plan-creations (λ n. fresh (suc n)) submitted (front ++ (fresh 0, next) ∷ [])
    ∙ append_assoc front ((fresh 0, next) ∷ []) (paired (λ n. fresh (suc n)) [] submitted)

-- no field in front has the id of a field of the list
abbrev AllLack : List Stored → List Metadata → Type 0
AllLack front = All λ (field : Metadata). Lacks field.id front

Lacks-stored :
    (id : MetadataId) (existing : List Metadata)
    → All (λ (other : Metadata). (id == other.id) ≡ false) existing
    → Lacks id (map stored existing)
Lacks-stored id [] h = tt
Lacks-stored id (e ∷ existing) h = (ground (arith, h.0), Lacks-stored id existing h.1)

AllLack-last :
    (front : List Stored) (id : MetadataId) (field : AccountFieldDto) (existing : List Metadata)
    → AllLack front existing
    → All (λ (other : Metadata). (id == other.id) ≡ false) existing
    → AllLack (front ++ (id, field) ∷ []) existing
AllLack-last front id field [] h k = tt
AllLack-last front id field (e ∷ existing) h k = (
  All-append (λ (s : Stored). (s.0 == e.id) ≡ false) front ((id, field) ∷ []) h.0 (k.0, tt),
  AllLack-last front id field existing h.1 k.1,
)

apply_plan-deletions :
    (fresh : ℕ → MetadataId) (existing : List Metadata) (front : List Stored)
    → HasDistinctIds existing
    → AllLack front existing
    → apply_plan fresh (deletions existing) (front ++ map stored existing) ≡ front
apply_plan-deletions fresh [] front d h = append-nil front
apply_plan-deletions fresh (e ∷ existing) front d h =
    ap (apply_plan fresh (deletions existing)) (
      drop_id-front e.id (field_dto e) front (map stored existing) h.0
        (Lacks-stored e.id existing d.0))
    ∙ apply_plan-deletions fresh existing front d.1 h.1

AllLack-nil : (existing : List Metadata) → AllLack [] existing
AllLack-nil [] = tt
AllLack-nil (e ∷ existing) = (tt, AllLack-nil existing)

-- a pair that has not changed
same_field :
    (current : Metadata) (next : AccountFieldDto)
    → has_changed current next ≡ false
    → field_dto current ≡ next
same_field current next h =
    let label : current.label ≡ next.label = (eq_iff current.label next.label).0 (ground arith) in
    let content : current.content ≡ next.content =
      (eq_iff current.content next.content).0 (ground arith) in
    rw (label, content) refl

apply_plan-front :
    (fresh : ℕ → MetadataId) (existing : List Metadata) (submitted : List AccountFieldDto)
    (front : List Stored)
    → HasDistinctIds existing
    → AllLack front existing
    → apply_plan fresh (plan_field_updates existing submitted) (front ++ map stored existing)
      ≡ front ++ paired fresh existing submitted
unfolding plan_field_updates
apply_plan-front fresh [] submitted front d h =
    ap (apply_plan fresh (creations submitted)) (append-nil front)
    ∙ apply_plan-creations fresh submitted front
apply_plan-front fresh (e ∷ existing) [] front d h =
    apply_plan-deletions fresh (e ∷ existing) front d h ∙ sym (append-nil front)
apply_plan-front fresh (e ∷ existing) (next ∷ submitted) front d h =
    let rest = apply_plan fresh (plan_field_updates existing submitted) in
    let tail : rest (front ++ (e.id, next) ∷ map stored existing)
        ≡ front ++ (e.id, next) ∷ paired fresh existing submitted =
      ap rest (sym (append_assoc front ((e.id, next) ∷ []) (map stored existing)))
      ∙ apply_plan-front fresh existing submitted (front ++ (e.id, next) ∷ []) d.1
          (AllLack-last front e.id next existing h.1 d.0)
      ∙ append_assoc front ((e.id, next) ∷ []) (paired fresh existing submitted) in
    elim (Bool-cases (has_changed e next)) [
      | inl c ↦ rw c (
          ap rest (
            replace-front e.id next (field_dto e) front (map stored existing) h.0
              (Lacks-stored e.id existing d.0))
          ∙ tail)
      | inr c ↦ rw c (
          ap (λ (f : AccountFieldDto). rest (front ++ (e.id, f) ∷ map stored existing))
            (same_field e next c)
          ∙ tail)
    ]

-- Where the stored fields have distinct ids, the planned operations turn them into the submitted
-- list: each pair keeps its id, the stored fields behind the pairs are gone, and the submitted ones
-- behind the pairs are appended in their order.
pub apply_plan-plan_field_updates :
    (fresh : ℕ → MetadataId) (existing : List Metadata) (submitted : List AccountFieldDto)
    → HasDistinctIds existing
    → apply_plan fresh (plan_field_updates existing submitted) (map stored existing)
      ≡ paired fresh existing submitted
apply_plan-plan_field_updates fresh existing submitted d =
    apply_plan-front fresh existing submitted [] d (AllLack-nil existing)

-- Nothing is done where the submitted fields are the stored ones.
pub plan_field_updates-same :
    (existing : List Metadata) → plan_field_updates existing (map field_dto existing) ≡ []
unfolding plan_field_updates
plan_field_updates-same [] = refl
plan_field_updates-same (e ∷ existing) =
    rw ((eq_iff e.label e.label).1 refl, (eq_iff e.content e.content).1 refl)
      (plan_field_updates-same existing)
