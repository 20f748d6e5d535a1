-- ===== src/TokenReqgrp.antt =====
-- sysqos_token_reqgrp.c: a group of token requests that is answered once, when the last of its
-- requests is decided. Groups and requests are shared by pointer between the group, the queues of the
-- nodes and the manager, so they live in a store. The steps of `to_got` and `to_failed` that other
-- threads can see are given one by one (`cas`, `count_down`), and then in sequence.
pub mod Counts
pub mod Keeps
pub mod Once
pub mod Whole
pub mod Since
pub mod Init
pub mod Placing
pub mod Order
pub mod Tests
use datastor_qos.Base.{
  ℕ, zero, suc, ◌+◌, ◌-◌, ◌*◌, ◌/◌, ◌%◌, ◌^◌, ◌≤◌, ◌<◌, min, max, ◌≡◌, refl, sym, ap, subst, ◌∙◌,
  ◌≢◌, ◌↔◌, ◌⊎◌, inl, inr, Bool, true, false, not, ◌&&◌, ◌||◌, Option, none, some, List, [], ◌∷◌,
  ◌++◌, map, arith, length, sum_of, All, length-append, sum_of-append, ltb, leb, ◌==◌,
  if◌then◌else◌, ==_refl, eq_of_==, ne_of_==, lt_of_ltb, le_of_ltb, Bool-cases, Option-cases,
  lt-ltb, is_some, IsWord, add64, sub64, mul64, add32, sub32, sub64-eq-sub, add64-eq-add, ℤ, pos,
  negsuc, pos_part, neg_part, ltb_ℤ, eqb_ℤ, ◌<ℤ◌, eq_of_parts,
}
use datastor_qos.Interface.{QosError, pending, failed_node, memory, is_error, Resource}
use datastor_qos.MemoryCache
use datastor_qos.MemoryCache.{MemoryCache}

-- `app_token_stat_t`
pub data Stat : Type 0 where
  init got failed : Stat

abbrev pub is_init : Stat → Bool
is_init init = true
is_init _ = false

-- `token_req_t`; `rs` is `token_need.rs`, and the links are positions in lists of pointers.
pub record TokenReq : Type 0 where
  pub stat : Stat
  pub node_id : ℕ
  pub token_grp : ℕ
  pub rs : Resource

-- `token_reqgrp_t`; `members` is the list at `lhead_reqgrp`.
pub record TokenReqgrp : Type 0 where
  pub members : List ℕ
  pub req_pending_nr : ℕ
  pub req_total_nr : ℕ
  pub pri : ℕ
  pub err : QosError
  pub failed_exist : Bool

-- The memory that pointers lead to. No live object stands at `next` or above.
pub record Store : Type 0 where
  pub req : ℕ → TokenReq
  pub grp : ℕ → TokenReqgrp
  pub next : ℕ

-- A write through a pointer.
abbrev pub update {ℓ} : {A : Type ℓ} → (ℕ → A) → ℕ → A → ℕ → A
update f p a q = if q == p then a else f q

abbrev pub set_req : Store → ℕ → TokenReq → Store
set_req s p r = record s { req = update s.req p r }

abbrev pub set_grp : Store → ℕ → TokenReqgrp → Store
set_grp s g x = record s { grp = update s.grp g x }

-- `__sync_bool_compare_and_swap(&rip->stat, app_token_stat_init, to)`
unfoldable pub cas : Store → ℕ → Stat → Bool × Store
cas s rip to =
    if is_init (s.req rip).stat
    then (true, set_req s rip (record (s.req rip) { stat = to }))
    else (false, s)

-- `_to_got` and `_to_fail`
unfoldable pub swap_to_got : Store → ℕ → Bool × Store
unfolding cas
swap_to_got s rip = cas s rip got

unfoldable pub swap_to_fail : Store → ℕ → Bool × Store
unfolding cas
swap_to_fail s rip = cas s rip failed

-- `__sync_sub_and_fetch(&token_grp->req_pending_nr, 1)`
unfoldable pub count_down : Store → ℕ → ℕ × Store
count_down s g =
    let left = sub32 (s.grp g).req_pending_nr 1 in
    (left, set_grp s g (record (s.grp g) { req_pending_nr = left }))

-- `token_grp->err = err = e`
unfoldable pub answer : Store → ℕ → QosError → QosError × Store
answer s g e = (e, set_grp s g (record (s.grp g) { err = e }))

unfoldable pub to_got : Store → ℕ → ℕ → QosError × Store
unfolding swap_to_got count_down answer
to_got s g rip =
    let (swapped, s₁) = swap_to_got s rip in
    let (left, s₂) = count_down s₁ g in
    if swapped
    then (if left == 0
        then answer s₂ g (if (s₂.grp g).failed_exist then failed_node else QosError.ok)
        else (pending, s₂))
    else (pending, s₁)

unfoldable pub to_failed : Store → ℕ → ℕ → QosError × Store
unfolding swap_to_fail count_down answer
to_failed s g rip =
    let s₀ = set_grp s g (record (s.grp g) { failed_exist = true }) in
    let (swapped, s₁) = swap_to_fail s₀ rip in
    let (left, s₂) = count_down s₁ g in
    if swapped
    then (if left == 0 then answer s₂ g failed_node else (pending, s₂))
    else (pending, s₁)

-- `fill_normal_val`, with the `pri` that `token_reqgrp_init` sets
unfoldable pub normal_val : ℕ → TokenReqgrp
normal_val pri = record {
  members = [];
  req_pending_nr = 0;
  req_total_nr = 0;
  pri = pri;
  err = pending;
  failed_exist = false;
}

-- `alloc_token`: none where the cache is used up.
unfoldable pub alloc_token : Store → MemoryCache → ℕ → Resource → Option (ℕ × Store) × MemoryCache
alloc_token s cache g rs =
    let (given, cache') = MemoryCache.alloc cache true in
    (
      if given
          then some (
            s.next,
            record s {
              req =
                  update s.req s.next (record { stat = init; node_id = 0; token_grp = g; rs = rs });
              next = suc s.next;
            },
          )
          else none,
      cache',
    )

-- `list_add(&resource->list_reqgrp, …)` and the two counts
unfoldable pub add_member : Store → ℕ → ℕ → Store
add_member s g rip =
    let x = s.grp g in
    set_grp s g (record x {
      members = rip ∷ x.members;
      req_total_nr = add32 x.req_total_nr 1;
      req_pending_nr = add32 x.req_pending_nr 1;
    })

-- `init_rip_list_by_rs_list`
unfoldable pub init_rip_list :
    Store → MemoryCache → ℕ → List Resource → QosError × Store × MemoryCache
unfolding alloc_token add_member
init_rip_list s cache g [] = (QosError.ok, s, cache)
init_rip_list s cache g (r ∷ rs) =
    let (made, cache') = alloc_token s cache g r in
    elim made [
      | none ↦ (memory, s, cache')
      | some (rip, s') ↦ init_rip_list (add_member s' g rip) cache' g rs
    ]

-- `clear_token_grp_resource_from_list`: every member goes back to the cache.
unfoldable pub clear_members : List ℕ → MemoryCache → MemoryCache
clear_members [] cache = cache
clear_members (p ∷ ps) cache = clear_members ps (MemoryCache.free cache)

-- `token_reqgrp_exit`, by `clear_token_grp_resource`: the group's list is empty afterwards.
unfoldable pub exit : Store → MemoryCache → ℕ → Store × MemoryCache
unfolding clear_members
exit s cache g =
    (set_grp s g (record (s.grp g) { members = [] }), clear_members (s.grp g).members cache)

-- `token_reqgrp_init`
unfoldable pub init_group :
    Store → MemoryCache → ℕ → List Resource → ℕ → QosError × Store × MemoryCache
unfolding normal_val init_rip_list exit
init_group s cache g rs_list pri =
    let (err, s', cache') = init_rip_list (set_grp s g (normal_val pri)) cache g rs_list in
    if is_error err
    then (let (s'', cache'') = exit s' cache' g in (err, s'', cache''))
    else (QosError.ok, s', cache')
