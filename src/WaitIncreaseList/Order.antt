-- ===== src/WaitIncreaseList/Order.antt =====
-- sysqos_waitincrease_list.c: the order of the first list.
use datastor_qos.Base.{
  ℕ, ◌+◌, ◌≡◌, refl, ap, ◌∙◌, Option, none, some, List, [], ◌∷◌, ◌++◌, arith, ◌==◌, if◌then◌else◌,
}
use datastor_qos.Run.{aborts, null_dereference}
use datastor_qos.WaitIncreaseList.{
  WaitIncreaseList, init, unlink, unlink_left, erase, enqueue, dequeue, is_first_exist,
}

-- What a manager does with the list.
pub data Event : Type 0 where
  enqueues erases : ℕ → Event

unfoldable pub step : WaitIncreaseList → Event → WaitIncreaseList
unfolding enqueue erase
step l (enqueues p) = enqueue l p
step l (erases p) = erase l p

unfoldable pub run : WaitIncreaseList → List Event → WaitIncreaseList
unfolding step
run l [] = l
run l (e ∷ es) = run (step l e) es

-- How often a node is in a list.
unfoldable pub count : ℕ → List ℕ → ℕ
count p [] = 0
count p (q ∷ qs) = (if q == p then 1 else 0) + count p qs

-- Whether a node waits after some events, if it waited so often before: its last event decides.
abbrev pub waits : ℕ → ℕ → List Event → ℕ
waits p before [] = before
waits p before (enqueues q ∷ es) = waits p (if q == p then 1 else before) es
waits p before (erases q ∷ es) = waits p (if q == p then 0 else before) es

count-append : (p : ℕ) (xs ys : List ℕ) → count p (xs ++ ys) ≡ count p xs + count p ys
unfolding count
count-append p [] ys = omega arith
count-append p (x ∷ xs) ys = omega (arith, count-append p xs ys)

count-unlink : (p q : ℕ) (ps : List ℕ) → count p (unlink q ps) ≡ (if q == p then 0 else count p ps)
unfolding count unlink
count-unlink p q [] = ground arith
count-unlink p q (x ∷ ps) = ground (arith, count-unlink p q ps)

step-count :
    (l : WaitIncreaseList) (p : ℕ) (e : Event)
    → count p (step l e).head ≡ waits p (count p l.head) (e ∷ [])
unfolding step enqueue erase count
step-count l p (enqueues q) =
    ground (arith, count-unlink p q l.head, count-append p (unlink q l.head) (q ∷ []))
step-count l p (erases q) = count-unlink p q l.head

count-run :
    (l : WaitIncreaseList) (p : ℕ) (es : List Event)
    → count p (run l es).head ≡ waits p (count p l.head) es
unfolding run
count-run l p [] = refl
count-run l p (enqueues q ∷ es) =
    count-run (step l (enqueues q)) p es ∙ ap (λ n. waits p n es) (step-count l p (enqueues q))
count-run l p (erases q ∷ es) =
    count-run (step l (erases q)) p es ∙ ap (λ n. waits p n es) (step-count l p (erases q))

-- However nodes are queued and taken out, a node is in the list once if the last that was done with
-- it was to queue it, and else not at all.
pub run-waits : (p : ℕ) (es : List Event) → count p (run init es).head ≡ waits p 0 es
unfolding init count
run-waits p es = count-run init p es

run_left : (l : WaitIncreaseList) (es : List Event) → l.left ≡ none → (run l es).left ≡ none
unfolding run step enqueue erase unlink_left
run_left l [] e = e
run_left l (enqueues p ∷ es) e = run_left (step l (enqueues p)) es (ap (unlink_left p) e)
run_left l (erases p ∷ es) e = run_left (step l (erases p)) es (ap (unlink_left p) e)

dequeue_unset :
    (h : List ℕ) (p : ℕ) (ls : Option (List ℕ))
    → ls ≡ none
    → is_first_exist (record { head = h; left = ls }) ≡ some p
    → dequeue (record { head = h; left = ls }) ≡ aborts null_dereference
unfolding dequeue is_first_exist
dequeue_unset [] p ls e first = ground arith
dequeue_unset (q ∷ qs) p ls e first = rw e refl

-- In a list as it was set up, the first node cannot be moved to `left`, whatever was done before: the
-- links of `left` were never set.
pub run-dequeue_aborts :
    (p : ℕ) (es : List Event)
    → is_first_exist (run init es) ≡ some p
    → dequeue (run init es) ≡ aborts null_dereference
unfolding init
run-dequeue_aborts p es first =
    dequeue_unset (run init es).head p (run init es).left (run_left init es refl) first
