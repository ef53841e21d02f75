-- ===== src/Scheduling/Priority/Claims.antt =====
-- Which tasks share a reserved path, as `prioritizeReadyWork` of src/core/scheduling/index.ts finds it
-- in a map from paths to tasks.
use mathlib.Core.List.Memᴰ
use mathlib.Core.List.{append_assoc, append-nil}
use vcode.Base.{
  ◌<◌, String, ◌≡◌, refl, sym, ap, subst, ◌∙◌, ◌↔◌, inl, inr, arith, false, List, [], ◌∷◌, ◌++◌,
  none, some, or_else, Memᴰ, Memᴰ-append, Bool-cases, Option-cases, string_eq, ◌==◌, eq_iff, length,
  ltb, if◌then◌else◌, eq_of_beq, beq_of_eq,
}
use vcode.Base.Dict.{Dict, get, set, get-set, values}
use vcode.Types.Workflow.{TaskId}
use vcode.Scheduling.{SchedulableUnit}
use vcode.Scheduling.Priority.{claim_paths, all_claims, overlapping, overlapping_task_ids}

-- The id, once for each time that the path is in the list.
unfoldable pub times : String → TaskId → List String → List TaskId
times p id [] = []
times p id (q ∷ qs) = let rest = times p id qs in if q == p then id ∷ rest else rest

-- The tasks that reserve a path, once for each time.
unfoldable pub claimants : String → List SchedulableUnit → List TaskId
claimants p [] = []
claimants p (SchedulableUnit.task t feature_id at ∷ us) =
    times p t.id (or_else t.reserved_write_paths []) ++ claimants p us
claimants p (SchedulableUnit.feature_phase f phase at ∷ us) = claimants p us

abbrev listed : String → Dict (List TaskId) → List TaskId
listed p m = or_else (get p m) []

listed_here :
    (p q : String) (ids : List TaskId) (m : Dict (List TaskId))
    → q ≡ p
    → listed p (set q (listed q m ++ ids) m) ≡ listed p m ++ ids
listed_here p q ids m same =
    ap (λ o. or_else o []) (get-set q p (listed q m ++ ids) m ∙ chosen)
    ∙ ap (λ k. listed k m ++ ids) same
  where
    chosen : (if q == p then some (listed q m ++ ids) else get p m) ≡ some (listed q m ++ ids)
    chosen = rw (beq_of_eq {a = q} {b = p} same) refl

listed_apart :
    (p q : String) (v : List TaskId) (m : Dict (List TaskId))
    → (q == p) ≡ false
    → listed p (set q v m) ≡ listed p m
listed_apart p q v m other = ap (λ o. or_else o []) (get-set q p v m ∙ chosen)
  where
    chosen : (if q == p then some v else get p m) ≡ get p m
    chosen = rw other refl

listed-claim_paths :
    (p : String) (id : TaskId) (ps : List String) (m : Dict (List TaskId))
    → listed p (claim_paths id ps m) ≡ listed p m ++ times p id ps
unfolding claim_paths times
listed-claim_paths p id [] m = sym (append-nil (listed p m))
listed-claim_paths p id (q ∷ qs) m =
    listed-claim_paths p id qs (set q (listed q m ++ id ∷ []) m) ∙ elim (Bool-cases (q == p)) [
      | inl same ↦ rw same (
          ap (λ k. k ++ times p id qs) (listed_here p q (id ∷ []) m (eq_of_beq q p same))
          ∙ append_assoc (listed p m) (id ∷ []) (times p id qs))
      | inr other ↦
          rw other (ap (λ k. k ++ times p id qs) (listed_apart p q (listed q m ++ id ∷ []) m other))
    ]

listed-all_claims :
    (p : String) (us : List SchedulableUnit) (m : Dict (List TaskId))
    → listed p (all_claims us m) ≡ listed p m ++ claimants p us
unfolding all_claims claimants
listed-all_claims p [] m = sym (append-nil (listed p m))
listed-all_claims p (SchedulableUnit.task t feature_id at ∷ us) m =
    let paths = or_else t.reserved_write_paths [] in
    listed-all_claims p us (claim_paths t.id paths m)
    ∙ ap (λ k. k ++ claimants p us) (listed-claim_paths p t.id paths m)
    ∙ append_assoc (listed p m) (times p t.id paths) (claimants p us)
listed-all_claims p (SchedulableUnit.feature_phase f phase at ∷ us) m = listed-all_claims p us m

-- No key twice.
abbrev IsSingle : {V : Type 0} → Dict V → Type 0
IsSingle [] = Unit
IsSingle ((j, w) ∷ m) = (get j m ≡ none) × IsSingle m

set-IsSingle : {V : Type 0} (k : String) (v : V) (m : Dict V) → IsSingle m → IsSingle (set k v m)
unfolding set get
set-IsSingle k v [] s = (refl, tt)
set-IsSingle k v ((j, w) ∷ m) (free, s) = elim (Bool-cases (j == k)) [
  | inl same ↦ rw same (free, s)
  | inr other ↦
      rw other (ground (arith, get-set k j v m, eq_iff k j, eq_iff j k), set-IsSingle k v m s)
]

claim_paths-IsSingle :
    (id : TaskId) (ps : List String) (m : Dict (List TaskId))
    → IsSingle m
    → IsSingle (claim_paths id ps m)
unfolding claim_paths
claim_paths-IsSingle id [] m s = s
claim_paths-IsSingle id (p ∷ ps) m s =
    claim_paths-IsSingle id ps (set p (listed p m ++ id ∷ []) m)
      (set-IsSingle p (listed p m ++ id ∷ []) m s)

all_claims-IsSingle :
    (us : List SchedulableUnit) (m : Dict (List TaskId)) → IsSingle m → IsSingle (all_claims us m)
unfolding all_claims
all_claims-IsSingle [] m s = s
all_claims-IsSingle (SchedulableUnit.task t feature_id at ∷ us) m s =
    all_claims-IsSingle us (claim_paths t.id (or_else t.reserved_write_paths []) m)
      (claim_paths-IsSingle t.id (or_else t.reserved_write_paths []) m s)
all_claims-IsSingle (SchedulableUnit.feature_phase f phase at ∷ us) m s = all_claims-IsSingle us m s

mem-values :
    {V : Type 0} (v : V) (m : Dict V)
    → IsSingle m
    → Memᴰ v (values m) ↔ ((p : String) × (get p m ≡ some v))
unfolding values get
mem-values v [] s = (λ k. absurd (Memᴰ.not-nil k), λ (p, e). cc)
mem-values v ((j, w) ∷ m) (free, s) =
    let rest = mem-values v m s in
    (
      λ k. elim (Memᴰ.cases_cons k) [
        | inl same ↦ (j, ground (arith, eq_iff j j, same))
        | inr later ↦
            let (p, e) = rest.0 later in
            (
              p,
              elim (Bool-cases (j == p)) [
                | inl here ↦ let is : j ≡ p = eq_of_beq j p here in cc
                | inr apart ↦ rw apart e
              ],
            )
      ],
      λ (p, e). elim (Bool-cases (j == p)) [
        | inl here ↦ Memᴰ.head (ground (arith, here, e))
        | inr apart ↦ Memᴰ.tail (rest.1 (p, ground (arith, apart, e)))
      ],
    )

mem-overlapping :
    (x : TaskId) (vs : List (List TaskId))
    → Memᴰ x (overlapping vs) ↔ ((ids : List TaskId) × Memᴰ ids vs × (1 < length ids) × Memᴰ x ids)
unfolding overlapping
mem-overlapping x [] = (λ m. absurd (Memᴰ.not-nil m), λ (ids, m, _, _). absurd (Memᴰ.not-nil m))
mem-overlapping x (v ∷ vs) = elim (Bool-cases (ltb 1 (length v))) [
  | inl long ↦ rw long (
    λ m. elim ((Memᴰ-append x v (overlapping vs)).0 m) [
      | inl here ↦ (v, Memᴰ.head refl, ground arith, here)
      | inr later ↦ let (ids, k, l, i) = (mem-overlapping x vs).0 later in (ids, Memᴰ.tail k, l, i)
    ],
    λ (ids, k, l, i). (Memᴰ-append x v (overlapping vs)).1 (elim (Memᴰ.cases_cons k) [
      | inl same ↦ inl (subst (Memᴰ x) same i)
      | inr later ↦ inr ((mem-overlapping x vs).1 (ids, later, l, i))
    ]),
  )
  | inr short ↦ rw short (
    λ m. let (ids, k, l, i) = (mem-overlapping x vs).0 m in (ids, Memᴰ.tail k, l, i),
    λ (ids, k, l, i). elim (Memᴰ.cases_cons k) [
      | inl same ↦
          let n : length ids ≡ length v = ap length same in absurd (ground (arith, n, l, short))
      | inr later ↦ (mem-overlapping x vs).1 (ids, later, l, i)
    ],
  )
]

-- A task shares a path when some path that it reserves is reserved more than once.
pub mem-overlapping_task_ids :
    (x : TaskId) (us : List SchedulableUnit)
    → Memᴰ x (overlapping_task_ids us)
      ↔ ((p : String) × Memᴰ x (claimants p us) × (1 < length (claimants p us)))
unfolding claimants get
mem-overlapping_task_ids x us =
    let m = all_claims us [] in
    let single = all_claims-IsSingle us [] tt in
    let found = mem-overlapping x (values m) in
    (
      λ k.
          let (ids, there, l, i) = found.0 k in
          let (p, at) = (mem-values ids m single).0 there in
          let same : ids ≡ claimants p us =
            sym (ap (λ o. or_else o []) at) ∙ listed-all_claims p us [] in
          (p, subst (Memᴰ x) same i, subst (λ n. 1 < n) (ap length same) l),
      λ (p, i, l). elim (Option-cases (get p m)) [
        | inl none_there ↦
            let same : [] ≡ claimants p us =
              sym (ap (λ o. or_else o []) none_there) ∙ listed-all_claims p us [] in
            absurd (Memᴰ.not-nil (subst (Memᴰ x) (sym same) i))
        | inr (ids, at) ↦
            let same : ids ≡ claimants p us =
              sym (ap (λ o. or_else o []) at) ∙ listed-all_claims p us [] in
            found.1 (
              ids,
              (mem-values ids m single).1 (p, at),
              subst (λ n. 1 < n) (ap length (sym same)) l,
              subst (Memᴰ x) (sym same) i,
            )
      ],
    )
