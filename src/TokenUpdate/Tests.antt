-- ===== src/TokenUpdate/Tests.antt =====
-- sysqos_token_update.c: rounds over two nodes.
use datastor_qos.Base.{ℕ, ◌+◌, ◌≡◌, List, [], ◌∷◌, arith, sum_of, pos}
use datastor_qos.Run.{Ends}
use datastor_qos.AppNode.{AppNode}
use datastor_qos.TokenUpdate.{Entry, first_pass}
use datastor_qos.TokenUpdate.Shares.{share, AreShared, obey, first_pass-AreShared}

abbrev entries : List Entry
entries =
    record { node = 0; updatenode = record { weight = 1; tmp_token_quota = 4; token_base = 10 } }
    ∷ record { node = 1; updatenode = record { weight = 2; tmp_token_quota = 9; token_base = 8 } }
    ∷ []

abbrev note : List ℕ → ℕ → ℕ → List ℕ
note log q p = q ∷ log

first_pass-AreShared_example :
    Ends
      (first_pass (obey note) [] entries 20 3 20)
      (λ r. (r.2 + sum_of (share 20 3) entries ≡ 20) × AreShared 20 3 entries r.1)
first_pass-AreShared_example =
    first_pass-AreShared note [] entries 20 (omega arith)
      ((omega arith, omega arith), ((omega arith, omega arith), tt)) (omega arith)

abbrev node : ℕ → AppNode
node q = record {
  updatenode = record { weight = 0; tmp_token_quota = 0; token_base = 0 };
  token_inuse = 0;
  token_quota = q;
  token_quota_new = q;
  press = 4;
  limit = record { min_units = 10; max_units = 0 };
  version = pos 0;
  fence_id = 7;
}

abbrev nodes : List (ℕ × AppNode)
nodes = (0, node 15) ∷ (1, node 40) ∷ []

-- Two nodes that just came online.
abbrev fresh : List (ℕ × AppNode)
fresh = (0, node 10) ∷ (1, node 10) ∷ []
