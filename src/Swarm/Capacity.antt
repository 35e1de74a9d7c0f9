-- ===== src/Swarm/Capacity.antt =====
-- The limit that `add_member` of amos-packages/amos-autoresearch/src/swarm/mod.rs puts on a swarm.
use amos_platform.Prelude.{
  ℕ, suc, ◌≡◌, refl, ap, sym, ◌∙◌, subst, arith, true, not, ltb_ℤ, ◌≤ℤ◌, ℤ, negsuc, pos, ==_refl,
  Option, none, some, [], ◌∷◌, ◌++◌, filter, find, length, length-append, filter-append, Bool-cases,
  inl, inr, String,
}
use amos_platform.Error.{ok, err}
use amos_platform.Database.{
  Session, Action, or_raise, ◌>>=◌, fetch, execute, new_v4, utc_now, bind_answers, fetch_reads,
}
use amos_platform.Swarm.Types.{Swarm, SwarmMember, AddMemberRequest, Tables}
use amos_platform.Swarm.Manager.{
  has_id, in_swarm, new_member, raise_if, no_swarm, swarm_full, get_swarm, add_member,
}
use amos_platform.Swarm.Router.{members_of}

module _ {F : Type 0} (one : F) (id : ℕ) (req : AddMemberRequest F) where
  -- What `add_member` does with the number of members that it counted, and with the swarm it read.
  insert : Action (Tables F) (SwarmMember F)
  insert = do
    member_id ← new_v4
    now ← utc_now
    let member = new_member one member_id id req now
    execute "Failed to add swarm member: "
        (λ t. (member, record t { members = t.members ++ (member ∷ []) }))

  within_limit : Swarm → ℕ → Action (Tables F) (SwarmMember F)
  unfolding insert
  within_limit swarm n =
      raise_if (not (ltb_ℤ (pos n) swarm.max_agents)) (swarm_full swarm.max_agents) >>= λ _. insert

  counted : Swarm → Action (Tables F) (SwarmMember F)
  unfolding within_limit insert
  counted swarm =
      fetch "Failed to count members: " (λ t. length (filter (in_swarm id) t.members))
      >>= within_limit swarm

  -- What an answered `add_member` has done: the member is the only change.
  abbrev pub IsAdded : Tables F → SwarmMember F → Tables F → Type 0
  IsAdded t m t' =
      (t' ≡ record t { members = t.members ++ (m ∷ []) })
      × (m.swarm_id ≡ id)
      × (m.agent_id ≡ req.agent_id)

  inserted :
      (s : Session (Tables F)) (m : SwarmMember F)
      → (insert s).0 ≡ ok m
      → IsAdded s.tables m (insert s).1.tables
  unfolding insert
  inserted s m h = ground arith

  limited :
      (swarm : Swarm) (n : ℕ) (s : Session (Tables F)) (m : SwarmMember F)
      → (within_limit swarm n s).0 ≡ ok m
      → (ltb_ℤ (pos n) swarm.max_agents ≡ true)
        × IsAdded s.tables m (within_limit swarm n s).1.tables
  unfolding within_limit insert
  limited swarm n s m h = elim (Bool-cases (ltb_ℤ (pos n) swarm.max_agents)) [
    | inl e ↦ (e, rw e (inserted s m (rw e at h)))
    | inr e ↦ let apart : err (swarm_full swarm.max_agents) ≡ ok m = rw e at h in cc
  ]

  taken : (n : ℕ) (z : ℤ) → ltb_ℤ (pos n) z ≡ true → pos (suc n) ≤ℤ z
  taken n (pos k) h = ground arith
  taken n (negsuc k) h = ground arith

  counted_limited :
      (swarm : Swarm) (s : Session (Tables F)) (m : SwarmMember F)
      → (counted swarm s).0 ≡ ok m
      → (ltb_ℤ (pos (length (members_of id s.tables))) swarm.max_agents ≡ true)
        × IsAdded s.tables m (counted swarm s).1.tables
  unfolding counted
  counted_limited swarm s m h =
      let what : String = "Failed to count members: " in
      let count : Tables F → ℕ = λ t. length (filter (in_swarm id) t.members) in
      let (n, got, goes) = bind_answers (fetch what count) (within_limit swarm) s m h in
      let (is_count, still) = fetch_reads what count s n got in
      let (fits, added) = limited swarm n (fetch what count s).1 m (ap (λ p. p.0) (sym goes) ∙ h) in
      let same : (within_limit swarm n (fetch what count s).1).1.tables
          ≡ (counted swarm s).1.tables =
        ap (λ p. p.1.tables) (sym goes) in
      (
        subst (λ k. ltb_ℤ (pos k) swarm.max_agents ≡ true) (sym is_count) fits,
        subst (λ t. IsAdded s.tables m t) same
            (subst (λ t. IsAdded t m (within_limit swarm n (fetch what count s).1).1.tables) still
              added),
      )

  longer :
      (t t' : Tables F) (m : SwarmMember F)
      → IsAdded t m t'
      → length (members_of id t') ≡ suc (length (members_of id t))
  longer t t' m (h, k, agent) =
      let one_more : filter (in_swarm id) (m ∷ []) ≡ m ∷ [] = rw (k, ==_refl id) refl in
      ap (λ u. length (members_of id u)) h
      ∙ ap length (filter-append (in_swarm id) t.members (m ∷ []))
      ∙ ap (λ ms. length (members_of id t ++ ms)) one_more
      ∙ length-append (members_of id t) (m ∷ [])
      ∙ omega arith

  taken_room :
      (t t' : Tables F) (m : SwarmMember F) (z : ℤ)
      → IsAdded t m t'
      → ltb_ℤ (pos (length (members_of id t))) z ≡ true
      → pos (length (members_of id t')) ≤ℤ z
  taken_room t t' m z added h =
      subst (λ n. pos n ≤ℤ z) (sym (longer t t' m added)) (taken (length (members_of id t)) z h)

  known_limited :
      (o : Option Swarm) (s : Session (Tables F)) (m : SwarmMember F)
      → ((or_raise o (no_swarm id) >>= counted) s).0 ≡ ok m
      → (swarm : Swarm) × (o ≡ some swarm)
        × (pos (length (members_of id ((or_raise o (no_swarm id) >>= counted) s).1.tables))
            ≤ℤ swarm.max_agents)
        × IsAdded s.tables m ((or_raise o (no_swarm id) >>= counted) s).1.tables
  known_limited none s m h = cc
  known_limited (some swarm) s m h =
      let (fits, added) = counted_limited swarm s m h in
      (
        swarm,
        refl,
        taken_room s.tables (counted swarm s).1.tables m swarm.max_agents added fits,
        added,
      )

  -- An agent is added only to a swarm that is there and has room: the answered member, of that swarm and
  -- of the agent asked for, is the only change to the tables, and with it the swarm has no more members
  -- than its limit.
  pub add_member-IsAdded :
      (s : Session (Tables F)) (m : SwarmMember F)
      → (add_member one id req s).0 ≡ ok m
      → (swarm : Swarm) × (find (has_id id) s.tables.swarms ≡ some swarm)
        × (pos (length (members_of id (add_member one id req s).1.tables)) ≤ℤ swarm.max_agents)
        × IsAdded s.tables m (add_member one id req s).1.tables
  unfolding add_member get_swarm counted within_limit insert
  add_member-IsAdded s m h =
      let what : String = "Failed to fetch swarm: " in
      let read : Tables F → Option Swarm = λ t. find (has_id id) t.swarms in
      let (o, got, goes) =
        bind_answers (fetch what read) (λ o. or_raise o (no_swarm id) >>= counted) s m h in
      let (is_read, still) = fetch_reads what read s o got in
      let (swarm, is_swarm, fits, added) =
        known_limited o (fetch what read s).1 m (ap (λ p. p.0) (sym goes) ∙ h) in
      let same = ap (λ p. p.1.tables) (sym goes) in
      (
        swarm,
        is_read ∙ is_swarm,
        subst (λ t. pos (length (members_of id t)) ≤ℤ swarm.max_agents) same fits,
        subst (IsAdded s.tables m) same (
            subst
              (λ t.
                IsAdded t m ((or_raise o (no_swarm id) >>= counted) (fetch what read s).1).1.tables)
              still added),
      )
