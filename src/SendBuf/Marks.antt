-- ===== src/SendBuf/Marks.antt =====
-- qrecovery/src/send/sndbuf.rs, `BufMap`: `ack_rcvd`, `may_loss` and `shift`.
use gm_quic.Prelude.{
  ℕ, zero, suc, ◌+◌, List, [], ◌∷◌, ◌++◌, Option, none, some, false, ◌&&◌, not, ltb, leb, ◌==◌,
  if◌then◌else◌, get_elem?, length, take, drop, ◌>>=◌, ◌>>◌, guard,
}
use gm_quic.RecvBuf.{Search, found, missing}
use gm_quic.SendBuf.Map.{
  Color, pending, flighting, recved, lost, ◌is◌, State, BufMap, set_color, color_state, same_before,
  run_of, finish, search, Cut, Covered, due,
}

-- The debug assertion that a range covers no pending data.
abbrev pub was_sent : Color → Option (Unit {0})
was_sent c = guard (not (c is pending))

unfoldable pub ack_cut : List State → Search → Option Cut
unfolding same_before
ack_cut states (found i) = get_elem? states i >>= λ s.
    was_sent s.color
    >> (let states' = color_state states i recved in
        some (record {
          states = states';
          drain_start = suc (same_before states' i recved);
          at_start = false;
          drain_end = suc i;
          pre_color = s.color;
        }))
ack_cut states (missing zero) = some (record {
  states = states;
  drain_start = 0;
  at_start = false;
  drain_end = 0;
  pre_color = recved;
})
ack_cut states (missing (suc k)) = get_elem? states k >>= λ s.
    was_sent s.color
    >> some (record {
      states = states;
      drain_start = suc k;
      at_start = not (s.color is recved);
      drain_end = suc k;
      pre_color = s.color;
    })

-- The loop of `ack_rcvd` over the states from index `i` on; `size` is the end of the map.
unfoldable pub ack_loop : ℕ → ℕ → ℕ → Color → List State → Option Covered
unfolding run_of
ack_loop size end i pre [] =
    guard (leb end size)
    >> some (record {
      drain_end = i;
      pre_color = pre;
      at_end = ltb end size && not (pre is recved);
      rest = [];
    })
ack_loop size end i pre (s ∷ rest) =
    let later = ack_loop size end (suc i) s.color rest in
    let run = run_of recved (s ∷ rest) in
    if ltb s.offset end
    then (was_sent s.color >> later)
    else if s.offset == end
    then some (record {
      drain_end = i + run;
      pre_color = pre;
      at_end = false;
      rest = drop run (s ∷ rest);
    })
    else some
        (record { drain_end = i; pre_color = pre; at_end = not (pre is recved); rest = s ∷ rest })

unfoldable pub ack_rcvd : BufMap → ℕ → ℕ → Option BufMap
unfolding search ack_cut ack_loop finish
ack_rcvd m start end = ack_cut m.states (search m.states start) >>= λ cut.
    ack_loop m.size end cut.drain_end cut.pre_color (drop cut.drain_end cut.states) >>= λ covered.
    some (record m {
      states =
          finish cut.states cut.drain_start covered.drain_end (due cut.at_start start recved)
            (due covered.at_end end covered.pre_color);
    })

unfoldable pub shift_states : List State → List State
shift_states [] = []
shift_states (s ∷ rest) = if s.color is recved then shift_states rest else s ∷ rest

unfoldable pub shift : BufMap → BufMap × ℕ
unfolding shift_states
shift m =
    let states' = shift_states m.states in
    (record m { states = states' }, elim states' [ [] ↦ m.size | s ∷ _ ↦ s.offset ])

-- The end of `lost_from`: of the states from `idx_start` on, the `count` ones before the loop's
-- index become one, behind which a state is due if `last` is given.
unfoldable pub finish_lost : List State → ℕ → Option State → List State
unfolding finish
finish_lost states count last = finish states 1 count none last

-- `lost_from` on the states from `idx_start` on: `marked` are the ones before the loop's index,
-- lost already, and `rest` those from there on. After a received state the rest is a new call.
unfoldable pub lost_from : ℕ → ℕ → List State → Color → List State → Option (List State)
unfolding finish_lost run_of
lost_from size end marked pre [] =
    guard (leb end size)
    >> some (finish_lost marked (length marked) (due (ltb end size && (pre is flighting)) end pre))
lost_from size end marked pre (s ∷ rest) =
    let again = lost_from size end [] recved rest in
    let more = lost_from size end (marked ++ (set_color s lost ∷ [])) s.color rest in
    let run = run_of lost (s ∷ rest) in
    if ltb s.offset end
    then was_sent s.color
      >> (if s.color is recved
          then (again >>= λ rest'. some (finish_lost (marked ++ (s ∷ rest')) (length marked) none))
          else more)
    else if s.offset == end
    then some (finish_lost (marked ++ (s ∷ rest)) (length marked + run) none)
    else some (finish_lost (marked ++ (s ∷ rest)) (length marked) (due (pre is flighting) end pre))

-- Before the loop of `may_loss`. With `none` for the cut the range starts inside a received state,
-- and `lost_from` from the index on is all there is to do.
unfoldable pub loss_cut : List State → Search → Option (ℕ × Option Cut)
unfolding same_before
loss_cut states (found i) = get_elem? states i >>= λ s.
    was_sent s.color
    >> (let states' = color_state states i lost in
        some (
          i,
          some (
              if s.color is flighting
              then record {
                states = states';
                drain_start = suc (same_before states' i lost);
                at_start = false;
                drain_end = suc i;
                pre_color = s.color;
              }
              else record {
                states = states;
                drain_start = suc i;
                at_start = false;
                drain_end = suc i;
                pre_color = s.color;
              }),
        ))
loss_cut states (missing zero) = some (
  0,
  some (record {
    states = states;
    drain_start = 1;
    at_start = false;
    drain_end = 0;
    pre_color = recved;
  }),
)
loss_cut states (missing (suc k)) = get_elem? states k >>= λ s.
    was_sent s.color
    >> (if s.color is recved
        then some (suc k, none)
        else some (
          suc k,
          some (record {
            states = states;
            drain_start = suc k;
            at_start = s.color is flighting;
            drain_end = suc k;
            pre_color = s.color;
          }),
        ))

-- The loop of `may_loss` over the states from index `i` on.
unfoldable pub loss_loop : ℕ → ℕ → ℕ → Color → List State → Option Covered
unfolding run_of lost_from
loss_loop size end i pre [] =
    guard (leb end size)
    >> some (record {
      drain_end = i;
      pre_color = pre;
      at_end = ltb end size && (pre is flighting);
      rest = [];
    })
loss_loop size end i pre (s ∷ rest) =
    let later = loss_loop size end (suc i) s.color rest in
    let run = run_of lost (s ∷ rest) in
    if ltb s.offset end
    then was_sent s.color
      >> (if s.color is recved
          then (lost_from size end [] recved rest >>= λ rest'.
              some (record { drain_end = i; pre_color = pre; at_end = false; rest = s ∷ rest' }))
          else later)
    else if s.offset == end
    then some (record {
      drain_end = i + run;
      pre_color = pre;
      at_end = false;
      rest = drop run (s ∷ rest);
    })
    else some
        (record { drain_end = i; pre_color = pre; at_end = pre is flighting; rest = s ∷ rest })

unfoldable pub may_loss : BufMap → ℕ → ℕ → Option BufMap
unfolding search loss_cut loss_loop finish lost_from
may_loss m start end = loss_cut m.states (search m.states start) >>= λ (i, cut). elim cut [
  | none ↦ lost_from m.size end [] recved (drop i m.states) >>= λ rest.
      some (record m { states = take i m.states ++ rest })
  | some cut ↦
      loss_loop m.size end cut.drain_end cut.pre_color (drop cut.drain_end cut.states)
      >>= λ covered. some (record m {
        states =
            finish (take covered.drain_end cut.states ++ covered.rest) cut.drain_start
              covered.drain_end (due cut.at_start start lost)
              (due covered.at_end end covered.pre_color);
      })
]
