-- ===== src/DispManager/Coming.antt =====
-- sysqos_dispatch_manager.c: applicants that come online.
use datastor_qos.Base.{
  ℕ, suc, ◌≤◌, ◌<◌, ◌≡◌, refl, sym, ap, subst, ◌∙◌, ◌⊎◌, inl, inr, Bool, true, false, Option, none,
  some, arith, ltb, ◌==◌, if◌then◌else◌, ==_refl, lt_of_ltb, le_of_ltb, ◌≢◌, Bool-cases,
  Option-cases, lt-ltb, IsWord, add64,
}
use datastor_qos.Interface.{QosError, ok, too_many_nodes}
use datastor_qos.Run.{returns, Ends, Returns, Ends-Returns}
use datastor_qos.MemoryCache
use datastor_qos.MemoryCache.{MemoryCache}
use datastor_qos.MemoryCache.Counting
use datastor_qos.SafeRwList.{RwError}
use datastor_qos.HashTable
use datastor_qos.HashTable.{Keys, Table}
use datastor_qos.HashTable.View
use datastor_qos.HashTable.View.{view, find-view}
use datastor_qos.HashTable.Writes.{insert-Inserted, Inserted}
use datastor_qos.AppNode
use datastor_qos.AppNode.{AppNode}
use datastor_qos.TokenGlobal
use datastor_qos.TokenGlobal.{TokenGlobal}
use datastor_qos.DispManager.Events.{Manager, link_in, admit}

-- The pools have a place: the count with one more reaches its maximum, and the minimum fits the total.
abbrev pub HasPlace : TokenGlobal → Type 0
HasPlace t =
    (t.app_num_max ≤ add64 t.app_num_cur 1)
    × (add64 t.token_used_static t.default_token_min ≤ t.token_total)

-- The pools have no place.
abbrev pub HasNoPlace : TokenGlobal → Type 0
HasNoPlace t =
    (add64 t.app_num_cur 1 < t.app_num_max)
    ⊎ (t.token_total < add64 t.token_used_static t.default_token_min)

-- A node given to the pools: let in where they have a place, and only its quotas are written; or refused
-- where they have none, and nothing changed.
abbrev LetIn : TokenGlobal → AppNode → QosError × TokenGlobal × AppNode → Type 0
LetIn t n (err, t', n') =
    ((err ≡ ok)
      × HasPlace t
      × (n'.fence_id ≡ n.fence_id)
      × (n'.token_quota ≤ t.default_token_min)
      × (t'.app_num_cur ≡ add64 t.app_num_cur 1))
    ⊎ ((err ≡ too_many_nodes) × HasNoPlace t × (t' ≡ t) × (n' ≡ n))

online-LetIn :
    (t : TokenGlobal) (min_units fence_id : ℕ)
    → IsWord t.default_token_min
    → IsWord t.app_token_rsvr
    → IsWord t.token_free
    → Ends
        (TokenGlobal.online t (AppNode.init min_units fence_id))
        (LetIn t (AppNode.init min_units fence_id))
unfolding TokenGlobal.online AppNode.init
online-LetIn t min_units fence_id d r f = ground arith

module _ (keys : Keys) where
  -- The table and the cache of nodes count alike, and the pools are words.
  pub record IsValid (m : Manager) : Type 0 where
    pub table : View.IsValid keys m.round.tab
    pub cache : Counting.IsValid m.token_node_cache
    pub level : Counting.live m.token_node_cache ≡ Counting.live m.round.tab.cache
    pub limit : m.token_node_cache.cache_unit ≡ m.round.tab.cache.cache_unit
    pub default : IsWord m.round.tokens.default_token_min
    pub rsvr : IsWord m.round.tokens.app_token_rsvr
    pub free : IsWord m.round.tokens.token_free

  -- What the table says of an id.
  abbrev pub node_of : Manager → ℕ → Option ℕ
  node_of m id = view keys m.round.tab id

  -- The applicant was not known and the pools have a place for it: it is let in as a new node, with
  -- the next number of life, at most the minimum as its quota and the nodes counted one more.
  pub record ComesIn (m : Manager) (id : ℕ) (r : Manager × Bool) : Type 0 where
    pub answer : r.1 ≡ true
    pub new : node_of m id ≡ none
    pub place : HasPlace m.round.tokens
    pub reads :
        (q : ℕ) → node_of r.0 q ≡ (if keys.cmp.same id q then some m.next_node else node_of m q)
    pub life : (r.0.round.nodes m.next_node).fence_id ≡ m.fence_id
    pub quota : (r.0.round.nodes m.next_node).token_quota ≤ m.round.tokens.default_token_min
    pub count : r.0.round.tokens.app_num_cur ≡ add64 m.round.tokens.app_num_cur 1
    pub others : (p : ℕ) → p ≢ m.next_node → r.0.round.nodes p ≡ m.round.nodes p

  -- The applicant was known, or the pools have no place: the pools, the nodes and what the table says are
  -- as they were, and the unit of the cache went back.
  pub record StaysOut (m : Manager) (id : ℕ) (r : Manager × Bool) : Type 0 where
    pub answer : r.1 ≡ false
    pub reason : (node_of m id ≢ none) ⊎ HasNoPlace m.round.tokens
    pub reads : (q : ℕ) → node_of r.0 q ≡ node_of m q
    pub tokens : r.0.round.tokens ≡ m.round.tokens
    pub nodes : r.0.round.nodes ≡ m.round.nodes
    pub units : Counting.live r.0.token_node_cache ≡ Counting.live m.token_node_cache

  -- The table and the cache after a call, and what the call did: nothing where the cache of nodes was
  -- used up; else a number of life is used, and the applicant came in or stayed out.
  pub record Admits (m : Manager) (id : ℕ) (r : Manager × Bool) : Type 0 where
    pub table : View.IsValid keys r.0.round.tab
    pub cache : Counting.IsValid r.0.token_node_cache
    pub level : Counting.live r.0.token_node_cache ≡ Counting.live r.0.round.tab.cache
    pub limit : r.0.token_node_cache.cache_unit ≡ r.0.round.tab.cache.cache_unit
    pub outcome :
        ((m.token_node_cache.cache_unit ≤ Counting.live m.token_node_cache) × (r ≡ (m, false)))
        ⊎ ((Counting.live m.token_node_cache < m.token_node_cache.cache_unit)
            × (r.0.fence_id ≡ add64 m.fence_id 1)
            × (ComesIn m id r ⊎ StaysOut m id r))

  abbrev cached : Manager → Manager
  cached m = record m {
    token_node_cache = (MemoryCache.alloc m.token_node_cache true).1;
    fence_id = add64 m.fence_id 1;
  }

  admit-full :
      (m : Manager) (id : ℕ)
      → (MemoryCache.alloc m.token_node_cache true).0 ≡ false
      → admit keys m id ≡ returns (m, false)
  unfolding admit
  admit-full m id e = rw (e, admit) refl

  admit-known :
      (m : Manager) (id p : ℕ)
      → (MemoryCache.alloc m.token_node_cache true).0 ≡ true
      → HashTable.find keys m.round.tab id ≡ returns (some p)
      → admit keys m id
        ≡ returns (
          record m {
            token_node_cache = MemoryCache.free (MemoryCache.alloc m.token_node_cache true).1;
            fence_id = add64 m.fence_id 1;
          },
          false,
        )
  unfolding admit
  admit-known m id p given e = rw (given, e, admit) refl

  admit-unknown :
      (m : Manager) (id : ℕ)
      → (MemoryCache.alloc m.token_node_cache true).0 ≡ true
      → HashTable.find keys m.round.tab id ≡ returns none
      → admit keys m id ≡ link_in keys (cached m) id (AppNode.init m.default_token_min m.fence_id)
  unfolding admit
  admit-unknown m id given e = rw (given, e, admit) refl

  link-refused :
      (m : Manager) (id : ℕ) (node n : AppNode) (t : TokenGlobal)
      → TokenGlobal.online m.round.tokens node ≡ returns (too_many_nodes, t, n)
      → link_in keys m id node
        ≡ returns (
          record m {
            round = record m.round { tokens = t };
            token_node_cache = MemoryCache.free m.token_node_cache;
          },
          false,
        )
  unfolding link_in
  link-refused m id node n t e = rw (e, link_in) refl

  link-ok :
      (m : Manager) (id : ℕ) (node n : AppNode) (t : TokenGlobal) (tab : Table ℕ)
      → TokenGlobal.online m.round.tokens node ≡ returns (ok, t, n)
      → HashTable.insert keys m.round.tab id m.next_node ≡ returns (RwError.ok, tab)
      → link_in keys m id node
        ≡ returns (
          record m {
            round = record m.round {
              nodes = λ x. if x == m.next_node then n else m.round.nodes x;
              tokens = t;
              tab = tab;
            };
            next_node = suc m.next_node;
          },
          true,
        )
  unfolding link_in
  link-ok m id node n t tab e f = rw (e, f, link_in) refl

  module _ (m : Manager) (id : ℕ) (v : IsValid m)
      (room : Counting.live m.token_node_cache < m.token_node_cache.cache_unit) where
    given : (MemoryCache.alloc m.token_node_cache true).0 ≡ true
    given = (Counting.alloc-live m.token_node_cache v.cache).2 ∙ lt-ltb _ _ room

    -- The cache after the allocation, and after the node was given back.
    counted :
        Counting.live (MemoryCache.alloc m.token_node_cache true).1
        ≡ suc (Counting.live m.token_node_cache)
    counted =
        let (_, _, _, count) = Counting.alloc-live m.token_node_cache v.cache in
        let now = rw given at count in omega (arith, now)

    taken-IsValid : Counting.IsValid (MemoryCache.alloc m.token_node_cache true).1
    taken-IsValid = (Counting.alloc-live m.token_node_cache v.cache).0

    same_unit :
        (MemoryCache.alloc m.token_node_cache true).1.cache_unit ≡ m.token_node_cache.cache_unit
    same_unit = (Counting.alloc-live m.token_node_cache v.cache).1

    -- A call that gave the node back.
    refused-Admits :
        (r : Manager)
        → r.round.tab ≡ m.round.tab
        → r.round.tokens ≡ m.round.tokens
        → r.round.nodes ≡ m.round.nodes
        → r.fence_id ≡ add64 m.fence_id 1
        → (node_of m id ≢ none) ⊎ HasNoPlace m.round.tokens
        → r.token_node_cache ≡ MemoryCache.free (MemoryCache.alloc m.token_node_cache true).1
        → Admits m id (r, false)
    refused-Admits r tab tokens nodes life why cache =
        let back =
          Counting.free-live (MemoryCache.alloc m.token_node_cache true).1 taken-IsValid
            (omega (arith, counted)) in
        let same : Counting.live r.token_node_cache ≡ Counting.live m.token_node_cache =
          rw cache (omega (arith, counted, back.2)) in
        record {
          table = rw tab v.table;
          cache = rw cache back.0;
          level = rw tab (same ∙ v.level);
          limit = rw (tab, cache) (back.1 ∙ same_unit ∙ v.limit);
          outcome = inr (
            room,
            life,
            inr (record {
              answer = refl;
              reason = why;
              reads = λ q. rw tab refl;
              tokens = tokens;
              nodes = nodes;
              units = same;
            }),
          );
        }

    known-Admits : (p : ℕ) → node_of m id ≡ some p → Ends (admit keys m id) (Admits m id)
    known-Admits p e =
        rw (admit-known m id p given (find-view keys id v.table ∙ ap (λ x. returns x) e)) (
          refused-Admits _ refl refl refl refl (inl (λ none_there. ground (arith, e, none_there)))
            refl)

    abbrev node : AppNode
    node = AppNode.init m.default_token_min m.fence_id

    unknown : node_of m id ≡ none → admit keys m id ≡ link_in keys (cached m) id node
    unknown e = admit-unknown m id given (find-view keys id v.table ∙ ap (λ x. returns x) e)

    added-Admits :
        (t : TokenGlobal) (n : AppNode)
        → node_of m id ≡ none
        → TokenGlobal.online m.round.tokens node ≡ returns (ok, t, n)
        → HasPlace m.round.tokens
        → n.fence_id ≡ m.fence_id
        → n.token_quota ≤ m.round.tokens.default_token_min
        → t.app_num_cur ≡ add64 m.round.tokens.app_num_cur 1
        → Ends (admit keys m id) (Admits m id)
    added-Admits t n e online place fence low count =
        let inserted =
          insert-Inserted keys m.round.tab v.table id m.next_node
            (omega (arith, room, v.level, v.limit)) in
        let ((err, tab), eq, (w, (live, same))) =
          subst
            (λ o.
              Returns (HashTable.insert keys m.round.tab id m.next_node)
                (Inserted keys m.round.tab v.table id m.next_node o))
            e inserted in
        let linked =
          link-ok (cached m) id node n t tab online (eq ∙ ap (λ x. returns (x, tab)) w.error) in
        rw (unknown e, linked)
          (record {
            table = w.valid;
            cache = taken-IsValid;
            level = omega (arith, counted, live, v.level);
            limit = same_unit ∙ v.limit ∙ sym same;
            outcome = inr (
              room,
              refl,
              inl (record {
                answer = refl;
                new = e;
                place = place;
                reads = w.reads;
                life = rw (==_refl m.next_node) fence;
                quota = rw (==_refl m.next_node) low;
                count = count;
                others = λ p far. ground arith;
              }),
            );
          })

    unknown-Admits :
        (r : QosError × TokenGlobal × AppNode)
        → node_of m id ≡ none
        → TokenGlobal.online m.round.tokens node ≡ returns r
        → LetIn m.round.tokens node r
        → Ends (admit keys m id) (Admits m id)
    unfolding AppNode.init
    unknown-Admits (err, t, n) e online (inl (fine, place, fence, low, count)) =
        added-Admits t n e (online ∙ ap (λ x. returns (x, t, n)) fine) place fence low count
    unknown-Admits (err, t, n) e online (inr (many, full, same, _)) =
        let linked =
          link-refused (cached m) id node n t (online ∙ ap (λ x. returns (x, t, n)) many) in
        rw (unknown e, linked) (refused-Admits _ refl same refl refl (inr full) refl)

    room-Admits : Ends (admit keys m id) (Admits m id)
    room-Admits = elim (Option-cases (node_of m id)) [
      | inr (p, e) ↦ known-Admits p e
      | inl e ↦
          let (r, online, l) =
            Ends-Returns (TokenGlobal.online m.round.tokens node) (LetIn m.round.tokens node) (
              online-LetIn m.round.tokens m.default_token_min m.fence_id v.default v.rsvr v.free) in
          unknown-Admits r e online l
    ]

  -- Where the table is valid, the cache of nodes counts as it does and the pools are words, bringing an
  -- applicant online never ends the process before the quotas are shared out, and keeps
  -- the table and the cache of nodes alike. Where the cache is used up, nothing changes. Otherwise the
  -- next number of life is used, and one of two happens. Where the applicant is known, or the pools have
  -- no place by their guard, it stays out: the pools, the nodes and what the table says are as they
  -- were, and the unit goes back to the cache. Where it is not known and the pools have a place, it comes
  -- in: only its id is new in the table, as a new node that has this number of life and at most the
  -- minimum as its quota, the pools count one node more, and the other nodes are as they were.
  pub admit-Admits : (m : Manager) (id : ℕ) → IsValid m → Ends (admit keys m id) (Admits m id)
  admit-Admits m id v =
      let (_, _, given, _) = Counting.alloc-live m.token_node_cache v.cache in
      elim (Bool-cases (ltb (Counting.live m.token_node_cache) m.token_node_cache.cache_unit)) [
        | inl some_left ↦ room-Admits m id v (lt_of_ltb _ _ some_left)
        | inr full ↦ rw (admit-full m id (given ∙ full)) (record {
          table = v.table;
          cache = v.cache;
          level = v.level;
          limit = v.limit;
          outcome = inl (le_of_ltb _ _ full, refl);
        })
      ]
