-- ===== src/TokenReqgrp/Init.antt =====
-- sysqos_token_reqgrp.c: building a group over the cache of requests.
use datastor_qos.Base.{
  ℕ, suc, ◌+◌, ◌^◌, ◌≤◌, ◌<◌, ◌≡◌, refl, sym, ap, subst, ◌∙◌, ◌⊎◌, inl, inr, true, List, [], ◌∷◌,
  arith, length, if◌then◌else◌, le_of_ltb, Bool-cases,
}
use datastor_qos.Interface.{QosError, ok, memory, Resource}
use datastor_qos.MemoryCache
use datastor_qos.MemoryCache.{MemoryCache}
use datastor_qos.MemoryCache.Counting
use datastor_qos.TokenReqgrp.{
  init, Store, update, set_grp, add_member, init_rip_list, clear_members, normal_val, init_group,
}
use datastor_qos.TokenReqgrp.Once.{IsGroup}
use datastor_qos.TokenReqgrp.Counts.{Falls, waiting, failures, update_above}

-- A group under construction: its members are all undecided, and hold what the cache gave since it
-- had `base` units out.
pub record IsBuilding (base unit : ℕ) (s : Store) (c : MemoryCache) (g : ℕ) : Type 0 where
  pub distinct : Falls s.next (s.grp g).members
  pub pending : (s.grp g).req_pending_nr ≡ length (s.grp g).members
  pub totals : (s.grp g).req_total_nr ≡ length (s.grp g).members
  pub undecided : waiting s.req (s.grp g).members ≡ length (s.grp g).members
  pub sound : failures s.req (s.grp g).members ≡ 0
  pub cache : Counting.IsValid c
  pub limit : c.cache_unit ≡ unit
  pub taken : Counting.live c ≡ base + length (s.grp g).members

-- One resource added, where the cache had a unit.
add-IsBuilding :
    (base unit : ℕ) (s : Store) (c c' : MemoryCache) (g : ℕ) (r : Resource)
    → IsBuilding base unit s c g
    → suc (length (s.grp g).members) < 2 ^ 31
    → Counting.IsValid c'
    → c'.cache_unit ≡ c.cache_unit
    → Counting.live c' ≡ suc (Counting.live c)
    → let s' = record s {
      req = update s.req s.next (record { stat = init; node_id = 0; token_grp = g; rs = r });
      next = suc s.next;
    } in
      IsBuilding base unit (add_member s' g s.next) c' g
      × ((add_member s' g s.next).grp g).members ≡ s.next ∷ (s.grp g).members
unfolding add_member waiting failures
add-IsBuilding base unit s c c' g r b few v same more =
    let above =
      update_above s.req s.next (record { stat = init; node_id = 0; token_grp = g; rs = r }) s.next
        (s.grp g).members b.distinct (omega arith) in
    (
      record {
        distinct = ground arith;
        pending = ground arith;
        totals = ground arith;
        undecided = ground (arith, above);
        sound = ground (arith, above);
        cache = v;
        limit = same ∙ b.limit;
        taken = ground arith;
      },
      ground arith,
    )

building-IsGroup :
    {base unit : ℕ} {s : Store} {c : MemoryCache} {g : ℕ}
    → IsBuilding base unit s c g
    → length (s.grp g).members < 2 ^ 31
    → IsGroup s g
building-IsGroup {s = s} b few = record {
  bound = s.next;
  distinct = b.distinct;
  counted = b.pending ∙ sym b.undecided;
  small = omega (arith, b.undecided);
  marked = λ _. b.sound;
}

-- How a construction ended.
pub record Built (base unit : ℕ) (g n : ℕ) (r : QosError × Store × MemoryCache) : Type 0 where
  pub building : IsBuilding base unit r.1 r.2 g
  pub outcome :
      ((r.0 ≡ ok) × (length (r.1.grp g).members ≡ n)) ⊎ ((r.0 ≡ memory) × (unit < base + n))

-- The store after a unit was given for `r`.
abbrev pub placed : Store → ℕ → Resource → Store
placed s g r = record s {
  req = update s.req s.next (record { stat = init; node_id = 0; token_grp = g; rs = r });
  next = suc s.next;
}

pub init_rip_list-cons :
    (s : Store) (c : MemoryCache) (g : ℕ) (r : Resource) (rs : List Resource)
    → init_rip_list s c g (r ∷ rs) ≡ (
        if (MemoryCache.alloc c true).0
        then init_rip_list (add_member (placed s g r) g s.next) (MemoryCache.alloc c true).1 g rs
        else (memory, s, (MemoryCache.alloc c true).1))
unfolding init_rip_list
init_rip_list-cons s c g r rs = elim (Bool-cases (MemoryCache.alloc c true).0) [
  | inl y ↦ ground arith
  | inr z ↦ ground arith
]

init_rip_list-Built :
    (base unit : ℕ) (s : Store) (c : MemoryCache) (g : ℕ) (rs : List Resource)
    → IsBuilding base unit s c g
    → length (s.grp g).members + length rs < 2 ^ 31
    → Built base unit g (length (s.grp g).members + length rs) (init_rip_list s c g rs)
init_rip_list-Built base unit s c g [] b few =
    unfold init_rip_list in (record { building = b; outcome = inl (refl, omega arith) })
init_rip_list-Built base unit s c g (r ∷ rs) b few =
    let (valid, same, given, count) = Counting.alloc-live c b.cache in
    elim (Bool-cases (MemoryCache.alloc c true).0) [
      | inl y ↦
          let counted = rw y at count in
          let (b', m) =
            add-IsBuilding base unit s c (MemoryCache.alloc c true).1 g r b (omega arith) valid same
              (omega (arith, counted)) in
          let longer = ap length m in
          rw (init_rip_list-cons s c g r rs, y)
            (subst
              (λ n. Built base unit g n (
                init_rip_list (add_member (placed s g r) g s.next) (MemoryCache.alloc c true).1 g
                  rs))
              (omega (arith, longer))
              (init_rip_list-Built base unit (add_member (placed s g r) g s.next)
                (MemoryCache.alloc c true).1 g rs b' (omega (arith, longer))))
      | inr z ↦
          let counted = rw z at count in
          let full = rw z at given in
          rw (init_rip_list-cons s c g r rs, z)
            (record {
              building = record {
                distinct = b.distinct;
                pending = b.pending;
                totals = b.totals;
                undecided = b.undecided;
                sound = b.sound;
                cache = valid;
                limit = same ∙ b.limit;
                taken = omega (arith, counted, b.taken);
              };
              outcome = inr (refl, omega (arith, le_of_ltb _ _ (sym full)));
            })
    ]

pub clear_members-live :
    (ps : List ℕ) (c : MemoryCache)
    → Counting.IsValid c
    → length ps ≤ Counting.live c
    → Counting.IsValid (clear_members ps c)
      × (Counting.live (clear_members ps c) + length ps ≡ Counting.live c)
unfolding clear_members
clear_members-live [] c v h = (v, omega arith)
clear_members-live (p ∷ ps) c v h =
    let (v', same, less) = Counting.free-live c v (omega arith) in
    let (v'', rest) = clear_members-live ps (MemoryCache.free c) v' (omega (arith, less)) in
    (v'', omega (arith, less, rest))

-- A new group for `n` resources: ready, with one unit of the cache for each; or refused for want of
-- memory, with no member and nothing kept of the cache, which had fewer than `n` units left.
pub record Made (c : MemoryCache) (g n : ℕ) (r : QosError × Store × MemoryCache) : Type 0 where
  pub cache : Counting.IsValid r.2
  pub outcome :
      ((r.0 ≡ ok)
        × IsGroup r.1 g
        × (length (r.1.grp g).members ≡ n)
        × (waiting r.1.req (r.1.grp g).members ≡ n)
        × (Counting.live r.2 ≡ Counting.live c + n))
      ⊎ ((r.0 ≡ memory)
          × ((r.1.grp g).members ≡ [])
          × (Counting.live r.2 ≡ Counting.live c)
          × (c.cache_unit < Counting.live c + n))

-- With a valid cache and fewer than 2 ^ 31 resources, building a group either succeeds whole, with one
-- undecided member for each resource and a unit of the cache for each, or answers that memory ran out,
-- which it did, and leaves no member and as many units in the cache as it found.
pub init_group-Made :
    (s : Store) (c : MemoryCache) (g : ℕ) (rs : List Resource) (pri : ℕ)
    → Counting.IsValid c
    → length rs < 2 ^ 31
    → Made c g (length rs) (init_group s c g rs pri)
unfolding init_group normal_val waiting failures
init_group-Made s c g rs pri v few =
    let s₀ = set_grp s g (normal_val pri) in
    let start : IsBuilding (Counting.live c) c.cache_unit s₀ c g = record {
      distinct = ground arith;
      pending = ground arith;
      totals = ground arith;
      undecided = ground arith;
      sound = ground arith;
      cache = v;
      limit = refl;
      taken = ground arith;
    } in
    let b = init_rip_list-Built (Counting.live c) c.cache_unit s₀ c g rs start (ground arith) in
    let r = init_rip_list s₀ c g rs in
    let none_yet : length (s₀.grp g).members ≡ 0 = ground arith in
    elim b.outcome [
      | inl (e, n) ↦
          rw (e, init_group)
            (record {
              cache = b.building.cache;
              outcome = inl (
                refl,
                building-IsGroup b.building (omega (arith, n, none_yet)),
                omega (arith, n, none_yet),
                omega (arith, n, none_yet, b.building.undecided),
                omega (arith, n, none_yet, b.building.taken),
              );
            })
      | inr (e, n) ↦
          let (valid, back) =
            clear_members-live (r.1.grp g).members r.2 b.building.cache
              (omega (arith, b.building.taken)) in
          rw (e, init_group)
            (record {
              cache = valid;
              outcome = inr (
                refl,
                ground arith,
                omega (arith, back, b.building.taken),
                omega (arith, n, none_yet),
              );
            })
    ]
