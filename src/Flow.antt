-- ===== src/Flow.antt =====
-- qbase/src/flow.rs: the flow control of a whole connection. The frames that are given to a broker
-- are a list, oldest first, and the calls of the wakers are counted.
pub mod Sender
pub mod Session
pub mod Recver
mod Tests
use gm_quic.Prelude.{
  ℕ, ◌+◌, ◌-◌, ◌/◌, min, List, [], ◌∷◌, ◌++◌, Option, none, some, Bool, true, false, ◌&&◌, not, ltb,
  leb, ◌==◌, if◌then◌else◌, ◌>>=◌, ◌>>◌, guard,
}
use gm_quic.VarInt.{varint_max}

-- `Result<_, Error>`: what the lock of a controller guards, or what a call returns.
pub data Result {ℓ κ} (E : Type ℓ) (A : Type κ) : Type (ℓ ⊔ κ) where
  ok : A → Result E A
  err : E → Result E A

pub record SendControler : Type 0 where
  pub sent_data : ℕ
  pub max_data : ℕ
  pub blocking : Bool
  -- The limits of the DATA_BLOCKED frames.
  pub broker : List ℕ
  pub tx_wakers : ℕ

pub record Credit : Type 0 where
  pub available : ℕ

-- `ArcSendControler::new`
unfoldable pub new_sender : ℕ → SendControler
new_sender initial_max_data = record {
  sent_data = 0;
  max_data = initial_max_data;
  blocking = false;
  broker = [];
  tx_wakers = 0;
}

unfoldable pub increase : ℕ → SendControler → SendControler
increase max_data c =
    if ltb c.max_data max_data
    then record c { max_data = max_data; blocking = false; tx_wakers = c.tx_wakers + 1 }
    else c

-- The frame that says that the limit is reached. `VarInt::from_u64(..).expect(..)` panics above
-- `varint_max`.
unfoldable pub data_blocked : SendControler → Option SendControler
data_blocked c =
    if (c.sent_data == c.max_data) && not c.blocking
    then (guard (leb c.max_data varint_max)
        >> some (record c { blocking = true; broker = c.broker ++ (c.max_data ∷ []) }))
    else some c

-- The subtraction panics below 0.
unfoldable pub take_credit : SendControler → ℕ → Option (SendControler × Credit)
unfolding data_blocked
take_credit c quota =
    guard (leb c.sent_data c.max_data)
    >> let available = min (c.max_data - c.sent_data) quota in
      data_blocked (record c { sent_data = c.sent_data + available }) >>= λ blocked.
      some (blocked, record { available = available })

unfoldable pub return_credit : SendControler → Credit → Option SendControler
return_credit c credit =
    guard (leb credit.available c.sent_data)
    >> some (record c {
      sent_data = c.sent_data - credit.available;
      tx_wakers = if ltb 0 credit.available then c.tx_wakers + 1 else c.tx_wakers;
    })

-- `Credit::post_sent`
unfoldable pub post_sent : Credit → ℕ → Option Credit
post_sent credit amount =
    guard (leb amount credit.available) >> some (record { available = credit.available - amount })

-- What `ArcSendControler` guards: the controller, or the error that ended the connection.
abbrev pub ArcSendControler {ℓ} : Type ℓ → Type ℓ
ArcSendControler E = Result E SendControler

module _ {ℓ} {E : Type ℓ} where
  -- `ArcSendControler::increase_limit`, also `recv_frame` of a MAX_DATA frame.
  unfoldable pub increase_limit : ArcSendControler E → ℕ → ArcSendControler E
  unfolding increase
  increase_limit (ok c) max_data = ok (increase max_data c)
  increase_limit (err e) max_data = err e

  unfoldable pub credit : ArcSendControler E → ℕ → Option (ArcSendControler E × Result E Credit)
  unfolding take_credit
  credit (ok c) quota = take_credit c quota >>= λ r. some (ok r.0, ok r.1)
  credit (err e) quota = some (err e, err e)

  -- `Drop` of a credit.
  unfoldable pub drop_credit : ArcSendControler E → Credit → Option (ArcSendControler E)
  unfolding return_credit
  drop_credit (ok c) left = return_credit c left >>= λ c'. some (ok c')
  drop_credit (err e) left = some (err e)

  unfoldable pub on_error : ArcSendControler E → E → ArcSendControler E
  on_error (ok c) e = err e
  on_error (err first) e = err first

pub record RecvController : Type 0 where
  pub rcvd_data : ℕ
  pub max_data : ℕ
  pub step : ℕ
  -- The limits of the MAX_DATA frames.
  pub broker : List ℕ

-- `ArcRecvController::new`
unfoldable pub new_recver : ℕ → RecvController
new_recver initial_max_data = record {
  rcvd_data = 0;
  max_data = initial_max_data;
  step = initial_max_data / 2;
  broker = [];
}

abbrev pub u64_limit : ℕ
u64_limit = 18446744073709551616

-- The limit rises by a step once less than a step is left of it.
unfoldable pub widen : RecvController → Option RecvController
widen c =
    let max_data = c.max_data + c.step in
    if leb c.max_data (c.rcvd_data + c.step)
    then (guard (leb max_data varint_max)
        >> some (record c { max_data = max_data; broker = c.broker ++ (max_data ∷ []) }))
    else some c

-- The error of kind FlowControl tells by how much the limit is exceeded. The sum panics beyond 64
-- bits.
unfoldable pub on_new_rcvd : RecvController → ℕ → Option (RecvController × Result ℕ ℕ)
unfolding widen
on_new_rcvd c amount =
    let counted = record c { rcvd_data = c.rcvd_data + amount } in
    guard (ltb counted.rcvd_data u64_limit)
    >> (if leb counted.rcvd_data c.max_data
        then (widen counted >>= λ c'. some (c', ok amount))
        else some (counted, err (counted.rcvd_data - c.max_data)))

pub record FlowController {ℓ} (E : Type ℓ) : Type ℓ where
  pub sender : ArcSendControler E
  pub recver : RecvController

module _ {ℓ} {E : Type ℓ} where
  -- `FlowController::new`
  unfoldable pub new : ℕ → ℕ → FlowController E
  unfolding new_sender new_recver
  new peer_initial_max_data local_initial_max_data = record {
    sender = ok (new_sender peer_initial_max_data);
    recver = new_recver local_initial_max_data;
  }

  unfoldable pub reset_send_window : FlowController E → ℕ → FlowController E
  unfolding increase_limit
  reset_send_window f snd_wnd = record f { sender = increase_limit f.sender snd_wnd }

  unfoldable pub send_limit : FlowController E → ℕ → Option (FlowController E × Result E Credit)
  unfolding credit
  send_limit f quota = credit f.sender quota >>= λ r. some (record f { sender = r.0 }, r.1)

  unfoldable pub on_conn_error : FlowController E → E → FlowController E
  unfolding on_error
  on_conn_error f e = record f { sender = on_error f.sender e }

  -- `FlowController::on_new_rcvd`
  unfoldable pub count_rcvd : FlowController E → ℕ → Option (FlowController E × Result ℕ ℕ)
  unfolding on_new_rcvd
  count_rcvd f amount = on_new_rcvd f.recver amount >>= λ r. some (record f { recver = r.0 }, r.1)
