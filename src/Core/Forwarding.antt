-- ===== src/Core/Forwarding.antt =====
-- What `process_header` of primary/src/core.rs sends to the consensus.
use mathlib.Core.List.{append-nil, append_assoc}
use sailfish_test.Prelude.{◌≡◌, ◌∙◌, ap, sym, List, [], ◌∷◌, ◌++◌}
use sailfish_test.Crypto.{Primitives}
use sailfish_test.Messages.{Header}
use sailfish_test.Core.{Codec, Core, Output, consensus_header}
use sailfish_test.Core.Handlers.{
  note_voted, note_processing, store_entry, process_vote, process_header,
}
use sailfish_test.Core.Sound.{Sound}
use sailfish_test.Core.Frame.{process_header_with-Sound}
use sailfish_test.Core.Circle.{IsKept}
use sailfish_test.Core.Dispatch.{process_vote-Sound}

-- What was sent begins with this.
abbrev pub IsSentFirst : List Output → Core → Type 0
IsSentFirst before k = (rest : List Output) × (k.sent ≡ before ++ rest)

snoc-IsSentFirst :
    (before : List Output) (k : Core) (o : Output)
    → IsSentFirst before k
    → IsSentFirst before (record k { sent = k.sent ++ o ∷ [] })
snoc-IsSentFirst before k o (rest, e) =
    (rest ++ o ∷ [], ap (λ l. l ++ o ∷ []) e ∙ append_assoc before rest (o ∷ []))

IsSentFirst-IsKept : (before : List Output) → IsKept (IsSentFirst before)
unfolding note_voted note_processing store_entry
IsSentFirst-IsKept before = record {
  frame = record {
    sends = λ k o e q. snoc-IsSentFirst before k o q;
    casts = λ k h v to may r a q. snoc-IsSentFirst before k _ q;
    handles = λ k r l q. q;
    stores = λ k d v q. q;
    votes = λ k h q. q;
    collects = λ k m q. q;
    counts = λ k a q. q;
  };
  notes = λ k h q. q;
  proposes = λ k h q. q;
  times_out = λ k m q. q;
  abstains = λ k m q. q;
}

-- Unless `process_header` panics, the first thing that it adds to what was sent is the header
-- itself, to the consensus, whatever becomes of the header afterwards: also where it is refused or
-- waits for its parents.
pub process_header-forwards :
    (p : Primitives) (b : Codec) (h : Header) (k : Core)
    → Sound (IsSentFirst (k.sent ++ consensus_header h ∷ [])) (process_header p b h k)
unfolding process_header note_processing
process_header-forwards p b h k =
    let before = k.sent ++ consensus_header h ∷ [] in
    let kept = IsSentFirst-IsKept before in
    process_header_with-Sound (IsSentFirst before) kept.frame p b (process_vote p b)
      (process_vote-Sound (IsSentFirst before) kept p b) h k ([], sym (append-nil before))
