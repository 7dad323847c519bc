-- ===== src/IndexDeque/Tests.antt =====
-- The theorems about qbase/src/util/index_deque.rs at concrete inputs.
use gm_quic.Prelude.{ℕ, ◌≡◌, ◌≢◌, [], ◌∷◌, none, some, arith, ltb, if◌then◌else◌}
use gm_quic.IndexDeque.{IndexDeque, ok, largest, len, get, update, push_back, advance}
use gm_quic.IndexDeque.Laws.{push_back_lem, advance_lem, update_lem, pop_front_lem, Pops}

abbrev window : IndexDeque ℕ
window = record { deque = 10 ∷ 20 ∷ 30 ∷ []; offset = 5 }

push_back_lem_example :
    ((push_back 100 window 40).1 ≡ ok 8)
    × (get (push_back 100 window 40).0 8 ≡ some 40)
    × ((i : ℕ) → i ≢ 8 → get (push_back 100 window 40).0 i ≡ get window i)
push_back_lem_example = push_back_lem 100 window 40 (omega arith) (omega arith)

advance_lem_example :
    (r : IndexDeque ℕ) × (advance window 2 ≡ some r)
    × (largest r ≡ 8)
    × ((i : ℕ) → get r i ≡ (if ltb i 7 then none else get window i))
advance_lem_example = advance_lem window 2 (omega arith)

update_lem_example :
    (r : IndexDeque ℕ) × (update window 6 21 ≡ r)
    × (get r 6 ≡ some 21)
    × ((i : ℕ) → i ≢ 6 → get r i ≡ get window i)
    × (r.offset ≡ 5)
    × (len r ≡ 3)
update_lem_example = update_lem window 6 21 (omega arith) (omega arith)

pop_front_lem_example : Pops window
pop_front_lem_example = pop_front_lem window (omega arith)
