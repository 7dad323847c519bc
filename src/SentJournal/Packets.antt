-- ===== src/SentJournal/Packets.antt =====
-- The journal of sent packets as its clients see it: a packet with the frames in it.
use gm_quic.Prelude.{
  ℕ, zero, suc, ◌+◌, ◌≤◌, ◌≡◌, refl, ap, ◌∙◌, List, [], ◌∷◌, ◌++◌, some, arith, length, get_elem?,
  set, take, drop, length-append, take-append_left, drop-append,
}
use gm_quic.SentJournal.{SentPktState, SentJournal, nframes, frames_before}

pub record Packet {ℓ} (T : Type ℓ) : Type ℓ where
  pub state : SentPktState
  pub frames : List T

module _ {ℓ} {T : Type ℓ} where
  abbrev pub states : List (Packet T) → List SentPktState
  states [] = []
  states (p ∷ ps) = p.state ∷ states ps

  abbrev pub all_frames : List (Packet T) → List T
  all_frames [] = []
  all_frames (p ∷ ps) = p.frames ++ all_frames ps

  -- The number in a packet's state is that of its frames.
  abbrev pub IsCounted : List (Packet T) → Type 0
  IsCounted [] = Unit {0}
  IsCounted (p ∷ ps) = (nframes p.state ≡ length p.frames) × IsCounted ps

  -- The journal that holds the packets `ps`, the first of them with number `offset`.
  abbrev pub journal : ℕ → List (Packet T) → ℕ → SentJournal T
  journal offset ps largest_acked = record {
    queue = all_frames ps;
    sent_packets = record { deque = states ps; offset = offset };
    largest_acked_pktno = largest_acked;
  }

  pub length-states : (ps : List (Packet T)) → length (states ps) ≡ length ps
  length-states [] = refl
  length-states (p ∷ ps) = ap suc (length-states ps)

  pub frames_before_lem :
      (i : ℕ) (ps : List (Packet T)) (pn k : ℕ)
      → IsCounted ps
      → i + k ≡ pn
      → k ≤ length ps
      → frames_before i (states ps) pn ≡ length (all_frames (take k ps))
  unfolding frames_before
  frames_before_lem i [] pn zero c e h = refl
  frames_before_lem i [] pn (suc k) c e h = absurd (omega arith)
  frames_before_lem i (p ∷ ps) pn zero c e h = ground arith
  frames_before_lem i (p ∷ ps) pn (suc k) c e h = ground (
    arith,
    c.0,
    frames_before_lem (i + 1) ps pn k c.1,
    length-append p.frames (all_frames (take k ps)),
  )

  pub frames_before-le :
      (i : ℕ) (ps : List (Packet T)) (pn : ℕ)
      → IsCounted ps
      → frames_before i (states ps) pn ≤ length (all_frames ps)
  unfolding frames_before
  frames_before-le i [] pn c = omega arith
  frames_before-le i (p ∷ ps) pn c =
      ground
        (arith, c.0, frames_before-le (i + 1) ps pn c.1, length-append p.frames (all_frames ps))

  pub get_elem?-states :
      (ps : List (Packet T)) (k : ℕ) (p : Packet T)
      → get_elem? ps k ≡ some p
      → get_elem? (states ps) k ≡ some p.state
  get_elem?-states [] k p e = cc
  get_elem?-states (q ∷ ps) zero p e = ground arith
  get_elem?-states (q ∷ ps) (suc k) p e = get_elem?-states ps k p e

  -- A new state for packet `k`, which keeps its frames.
  abbrev pub set_state : List (Packet T) → ℕ → SentPktState → List (Packet T)
  set_state [] k s = []
  set_state (p ∷ ps) zero s = record p { state = s } ∷ ps
  set_state (p ∷ ps) (suc k) s = p ∷ set_state ps k s

  pub states-set_state :
      (ps : List (Packet T)) (k : ℕ) (s : SentPktState)
      → states (set_state ps k s) ≡ set (states ps) k s
  states-set_state [] k s = refl
  states-set_state (p ∷ ps) zero s = refl
  states-set_state (p ∷ ps) (suc k) s = ap (λ t. p.state ∷ t) (states-set_state ps k s)

  pub all_frames-set_state :
      (ps : List (Packet T)) (k : ℕ) (s : SentPktState)
      → all_frames (set_state ps k s) ≡ all_frames ps
  all_frames-set_state [] k s = refl
  all_frames-set_state (p ∷ ps) zero s = refl
  all_frames-set_state (p ∷ ps) (suc k) s = ap (λ t. p.frames ++ t) (all_frames-set_state ps k s)

  pub set_state-IsCounted :
      (ps : List (Packet T)) (k : ℕ) (p : Packet T) (s : SentPktState)
      → IsCounted ps
      → get_elem? ps k ≡ some p
      → nframes s ≡ nframes p.state
      → IsCounted (set_state ps k s)
  set_state-IsCounted [] k p s c e h = tt
  set_state-IsCounted (q ∷ ps) zero p s c e h = ground (arith, c.0, c.1)
  set_state-IsCounted (q ∷ ps) (suc k) p s c e h = (c.0, set_state-IsCounted ps k p s c.1 e h)

  -- The frames of packet `k` stand behind those of the packets in front of it.
  pub take-frames :
      (ps : List (Packet T)) (k : ℕ) (p : Packet T)
      → get_elem? ps k ≡ some p
      → take (length p.frames) (drop (length (all_frames (take k ps))) (all_frames ps)) ≡ p.frames
  take-frames [] k p e = cc
  take-frames (q ∷ ps) zero p e =
      let same : q ≡ p = ground arith in
      ap (λ (t : Packet T). take (length p.frames) (t.frames ++ all_frames ps)) same
      ∙ take-append_left p.frames (all_frames ps) (length p.frames) refl
  take-frames (q ∷ ps) (suc k) p e =
      ap (take (length p.frames)) (drop-append q.frames (all_frames (take k ps)) (all_frames ps))
      ∙ take-frames ps k p e

  pub count-frames :
      (ps : List (Packet T)) (k : ℕ) (p : Packet T)
      → get_elem? ps k ≡ some p
      → length (all_frames (take k ps)) + length p.frames ≤ length (all_frames ps)
  count-frames [] k p e = cc
  count-frames (q ∷ ps) zero p e = ground (arith, length-append q.frames (all_frames ps))
  count-frames (q ∷ ps) (suc k) p e = omega (
    arith,
    count-frames ps k p e,
    length-append q.frames (all_frames (take k ps)),
    length-append q.frames (all_frames ps),
  )
