-- ===== src/BaseNode/Tests.antt =====
-- sysqos_dispatch_base_node.c: runs on concrete nodes.
use datastor_qos.Base.{◌+◌, ◌≤◌, ◌≡◌, refl, List, [], ◌∷◌, arith, pos}
use datastor_qos.Interface.{Dispatch2App}
use datastor_qos.BaseNode.{BaseNode, init, try_alloc}
use datastor_qos.BaseNode.Versions.{NeverReset, receive_all, receive_all-version}
use datastor_qos.BaseNode.Shrink.{IsSmooth}
use datastor_qos.BaseNode.Alloc.{grant, grant-inuse}

-- A node that comes down from 40 tokens to 20 in steps of 5, with 3 in use.
abbrev shrinking : BaseNode
shrinking = record {
  token_inuse = 3;
  token_quota = 40;
  token_quota_new = 20;
  respond_step = 5;
  version = pos 1;
}

shrinking-IsSmooth : IsSmooth shrinking
shrinking-IsSmooth = record { word = omega arith; falling = omega arith; roomy = omega arith }

try_alloc-shrinking : (try_alloc shrinking 4).1.token_quota ≡ 35
unfolding try_alloc
try_alloc-shrinking = refl

-- The second message comes twice.
abbrev messages : List Dispatch2App
messages =
    record { token_quota = 30; version = pos 1 }
    ∷ record { token_quota = 7; version = pos 4 }
    ∷ record { token_quota = 7; version = pos 4 }
    ∷ []

receive_all-version_example :
    NeverReset init messages × ((receive_all init messages).version ≡ pos 4)
receive_all-version_example =
    receive_all-version init messages
      (unfold init in (omega arith, (omega arith, (omega arith, tt))))

-- A node whose quota of 3 is smaller than its step.
abbrev tiny : BaseNode
tiny = record {
  token_inuse = 0;
  token_quota = 3;
  token_quota_new = 3;
  respond_step = 5;
  version = pos 1;
}

grant-inuse_example :
    ((grant shrinking (4 ∷ 90 ∷ 5 ∷ [])).0.token_inuse ≡ 3 + (grant shrinking (4 ∷ 90 ∷ 5 ∷ [])).1)
    × ((grant shrinking (4 ∷ 90 ∷ 5 ∷ [])).0.token_inuse ≤ 40)
grant-inuse_example =
    grant-inuse shrinking (4 ∷ 90 ∷ 5 ∷ []) shrinking-IsSmooth
      (omega arith, (omega arith, (omega arith, tt)))
