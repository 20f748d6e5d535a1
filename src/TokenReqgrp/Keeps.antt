-- ===== src/TokenReqgrp/Keeps.antt =====
-- sysqos_token_reqgrp.c: what a decision changes of a request.
use datastor_qos.Base.{ℕ, ◌≡◌, refl, ap, ◌∙◌, false, arith}
use datastor_qos.TokenReqgrp.{is_init, Store, to_got, to_failed}

-- What no decision on a request changes, and what it never undoes.
pub record Keeps (s s' : Store) : Type 0 where
  pub rs : (q : ℕ) → (s'.req q).rs ≡ (s.req q).rs
  pub grp : (q : ℕ) → (s'.req q).token_grp ≡ (s.req q).token_grp
  pub stat : (q : ℕ) → is_init (s.req q).stat ≡ false → (s'.req q).stat ≡ (s.req q).stat
  pub next : s'.next ≡ s.next

pub Keeps-refl : (s : Store) → Keeps s s
Keeps-refl s = record { rs = λ q. refl; grp = λ q. refl; stat = λ q e. refl; next = refl }

pub Keeps-trans : {s t u : Store} → Keeps s t → Keeps t u → Keeps s u
Keeps-trans {s} {t} {u} a b = record {
  rs = λ q. b.rs q ∙ a.rs q;
  grp = λ q. b.grp q ∙ a.grp q;
  stat = λ q e. b.stat q (ap is_init (a.stat q e) ∙ e) ∙ a.stat q e;
  next = b.next ∙ a.next;
}

pub to_got-Keeps : (s : Store) (g p : ℕ) → Keeps s (to_got s g p).1
unfolding to_got
to_got-Keeps s g p = record {
  rs = λ q. ground arith;
  grp = λ q. ground arith;
  stat = λ q e. ground arith;
  next = ground arith;
}

pub to_failed-Keeps : (s : Store) (g p : ℕ) → Keeps s (to_failed s g p).1
unfolding to_failed
to_failed-Keeps s g p = record {
  rs = λ q. ground arith;
  grp = λ q. ground arith;
  stat = λ q e. ground arith;
  next = ground arith;
}

pub to_got_decides : (s : Store) (g p : ℕ) → is_init ((to_got s g p).1.req p).stat ≡ false
unfolding to_got
to_got_decides s g p = ground arith

pub to_failed_decides : (s : Store) (g p : ℕ) → is_init ((to_failed s g p).1.req p).stat ≡ false
unfolding to_failed
to_failed_decides s g p = ground arith
