-- ===== src/Swarm/Acyclic.antt =====
-- The operations of amos-packages/amos-autoresearch/src/swarm/mod.rs that change the swarms keep their
-- parents free of cycles.
use amos_platform.Prelude.{
  ℕ, suc, ◌≡◌, ◌⊎◌, sym, subst, arith, false, not, ◌==◌, ==_refl, Option, none, some, List, [], ◌∷◌,
  ◌++◌, filter, find, update_where, All, All-filter, All-append, All-both, All-map,
  All-update_where, inl, inr, if◌then◌else◌, String,
}
use amos_platform.Database.{Session, Action, or_raise, ◌>>=◌, execute, bind_keeps, utc_now}
use amos_platform.Swarm.Types.{Swarm, CreateSwarmRequest, UpdateSwarmRequest, Tables}
use amos_platform.Swarm.Manager.{
  has_id, is_child_of, orphaned, updated, new_swarm, no_swarm, get_swarm, create_swarm,
  update_swarm, delete_swarm,
}
use amos_platform.Swarm.Family.{IsBelow, IsRanked}

-- The ranking with a new swarm at the bottom.
abbrev pub with_new : (ℕ → ℕ) → ℕ → ℕ → ℕ
with_new rank id x = if x == id then 0 else suc (rank x)

-- No swarm has this id, or a parent of this id.
abbrev pub IsFresh : ℕ → List Swarm → Type 0
IsFresh id swarms = All (λ x. ((x.id == id) ≡ false) × (is_child_of id x ≡ false)) swarms

lifted :
    (rank : ℕ → ℕ) (new id : ℕ) (o : Option ℕ)
    → IsBelow rank id o
    → (id == new) ≡ false
    → elim o [ none ↦ false | some p ↦ p == new ] ≡ false
    → IsBelow (with_new rank new) id o
lifted rank new id none h k l = tt
lifted rank new id (some p) h k l = rw (k, l) (omega (arith, h))

bottom :
    (rank : ℕ → ℕ) (new : ℕ) (o : Option ℕ)
    → elim o [ none ↦ false | some p ↦ p == new ] ≡ false
    → IsBelow (with_new rank new) new o
bottom rank new none l = tt
bottom rank new (some p) l = rw (l, ==_refl new) (omega arith)

-- The parents form no cycle: some ranking puts each swarm below its parent.
abbrev pub IsAcyclic : {F : Type 0} → Tables F → Type 0
IsAcyclic t = (rank : ℕ → ℕ) × IsRanked rank t

module _ {F : Type 0} where
  create_swarm_cases :
      (req : CreateSwarmRequest) (s : Session (Tables F))
      → ((create_swarm req s).1.tables ≡ s.tables)
        ⊎ ((create_swarm req s).1.tables ≡ record s.tables {
          swarms = s.tables.swarms ++ (new_swarm (s.uuids s.drawn) s.now req ∷ []);
        })
  unfolding create_swarm
  create_swarm_cases req s = ground arith

  -- What `update_swarm` does with the swarm that it read.
  write : String → ℕ → UpdateSwarmRequest → Swarm → Action (Tables F) Swarm
  write what id req current = do
    now ← utc_now
    execute what (λ t. (
      updated req current now current,
      record t { swarms = update_where (has_id id) (updated req current now) t.swarms },
    ))

  delete_swarm_cases :
      (id : ℕ) (s : Session (Tables F))
      → ((delete_swarm id s).1.tables.swarms ≡ s.tables.swarms)
        ⊎ ((delete_swarm id s).1.tables.swarms
            ≡ update_where
                (is_child_of id)
                (orphaned id)
                (filter (λ x. not (has_id id x)) s.tables.swarms))
  unfolding delete_swarm
  delete_swarm_cases id s = ground arith

  executed_cases :
      {A : Type 0} (what : String) (body : Tables F → A × Tables F) (s : Session (Tables F))
      → ((execute what body s).1.tables ≡ s.tables)
        ⊎ ((execute what body s).1.tables ≡ (body s.tables).1)
  executed_cases what body s = ground arith

  write-IsRanked :
      (rank : ℕ → ℕ) (what : String) (id : ℕ) (req : UpdateSwarmRequest) (current : Swarm)
      (s : Session (Tables F))
      → IsRanked rank s.tables
      → IsRanked rank (write what id req current s).1.tables
  unfolding write
  write-IsRanked rank what id req current s h =
      let body : Tables F → Swarm × Tables F = λ t. (
        updated req current s.now current,
        record t { swarms = update_where (has_id id) (updated req current s.now) t.swarms },
      ) in
      elim (executed_cases what body s) [
        | inl same ↦ subst (IsRanked rank) (sym same) h
        | inr done ↦ subst (IsRanked rank) (sym done) (
            All-update_where (λ x. IsBelow rank x.id x.parent_swarm_id) (has_id id)
              (updated req current s.now) s.tables.swarms (λ x k. k) h)
      ]

  -- An update leaves each swarm's parent as it is, so a ranking stays one.
  pub update_swarm-IsRanked :
      (rank : ℕ → ℕ) (id : ℕ) (req : UpdateSwarmRequest) (s : Session (Tables F))
      → IsRanked rank s.tables
      → IsRanked rank (update_swarm id req s).1.tables
  unfolding update_swarm get_swarm write
  update_swarm-IsRanked rank id req s h =
      let P : Session (Tables F) → Type 0 = λ s'. IsRanked rank s'.tables in
      bind_keeps P (get_swarm id)
        (λ o. or_raise o (no_swarm id) >>= write "Failed to update swarm: " id req) s
        (elim (executed_cases "Failed to fetch swarm: " (λ t. (find (has_id id) t.swarms, t)) s) [
          | inl same ↦ subst (IsRanked rank) (sym same) h
          | inr same ↦ subst (IsRanked rank) (sym same) h
        ])
        (λ o s1 h1. found-IsRanked o s1 h1)
    where
      found-IsRanked :
          (o : Option Swarm) (s1 : Session (Tables F))
          → IsRanked rank s1.tables
          → IsRanked rank
              ((or_raise o (no_swarm id) >>= write "Failed to update swarm: " id req) s1).1.tables
      found-IsRanked none s1 k = k
      found-IsRanked (some current) s1 k =
          write-IsRanked rank "Failed to update swarm: " id req current s1 k

  -- A deletion takes swarms away and makes roots of the children.
  pub delete_swarm-IsRanked :
      (rank : ℕ → ℕ) (id : ℕ) (s : Session (Tables F))
      → IsRanked rank s.tables
      → IsRanked rank (delete_swarm id s).1.tables
  delete_swarm-IsRanked rank id s h =
      let P : Swarm → Type 0 = λ x. IsBelow rank x.id x.parent_swarm_id in
      elim (delete_swarm_cases id s) [
        | inl same ↦ subst (All P) (sym same) h
        | inr done ↦ subst (All P) (sym done) (
            All-update_where P (is_child_of id) (orphaned id)
              (filter (λ x. not (has_id id x)) s.tables.swarms) (λ x k. tt)
              (All-filter P (λ x. not (has_id id x)) s.tables.swarms h))
      ]

  added-IsRanked :
      (rank : ℕ → ℕ) (new : Swarm) (t : Tables F)
      → IsRanked rank t
      → IsFresh new.id t.swarms
      → is_child_of new.id new ≡ false
      → IsRanked (with_new rank new.id) (record t { swarms = t.swarms ++ (new ∷ []) })
  added-IsRanked rank new t h fresh own =
      let P : Swarm → Type 0 = λ x. IsBelow rank x.id x.parent_swarm_id in
      let N : Swarm → Type 0 = λ x. ((x.id == new.id) ≡ false) × (is_child_of new.id x ≡ false) in
      let Q : Swarm → Type 0 = λ x. IsBelow (with_new rank new.id) x.id x.parent_swarm_id in
      All-append Q t.swarms (new ∷ [])
        (All-map (λ x k. lifted rank new.id x.id x.parent_swarm_id k.0 k.1.0 k.1.1) t.swarms
          (All-both P N t.swarms h fresh))
        (bottom rank new.id new.parent_swarm_id own, tt)

  -- A new swarm, whose id is no swarm's and no swarm's parent's yet, goes to the bottom.
  create_swarm-IsAcyclic :
      (req : CreateSwarmRequest) (s : Session (Tables F))
      → IsAcyclic s.tables
      → IsFresh (s.uuids s.drawn) s.tables.swarms
      → is_child_of (s.uuids s.drawn) (new_swarm (s.uuids s.drawn) s.now req) ≡ false
      → IsAcyclic (create_swarm req s).1.tables
  create_swarm-IsAcyclic req s (rank, h) fresh own =
      let new = new_swarm (s.uuids s.drawn) s.now req in
      elim (create_swarm_cases req s) [
        | inl same ↦ (rank, subst (IsRanked rank) (sym same) h)
        | inr done ↦ (
          with_new rank new.id,
          subst (IsRanked (with_new rank new.id)) (sym done)
              (added-IsRanked rank new s.tables h fresh own),
        )
      ]

  -- A creation, an update and a deletion of a swarm, answered or refused, each keep the parents free of
  -- cycles, where the id that a creation draws is no swarm's and no swarm's parent's yet and not asked
  -- for as the new swarm's parent.
  pub manager-IsAcyclic :
      (req : CreateSwarmRequest) (id : ℕ) (changes : UpdateSwarmRequest) (s : Session (Tables F))
      → IsAcyclic s.tables
      → IsFresh (s.uuids s.drawn) s.tables.swarms
      → is_child_of (s.uuids s.drawn) (new_swarm (s.uuids s.drawn) s.now req) ≡ false
      → IsAcyclic (create_swarm req s).1.tables
        × IsAcyclic (update_swarm id changes s).1.tables
        × IsAcyclic (delete_swarm id s).1.tables
  manager-IsAcyclic req id changes s (rank, h) fresh own = (
    create_swarm-IsAcyclic req s (rank, h) fresh own,
    (rank, update_swarm-IsRanked rank id changes s h),
    (rank, delete_swarm-IsRanked rank id s h),
  )
