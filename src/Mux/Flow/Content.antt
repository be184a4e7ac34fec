-- ===== src/Mux/Flow/Content.antt =====
-- The bytes of one direction of a stream, src/chute/mux.py: what the consumer reads against
-- what the sender wrote.
use chute.Prelude.{◌≡◌, List, ◌++◌, ◌∷◌, []}
use chute.Mux.Flow.{Link, unsent}
use chute.Mux.Stream.{Item, Stream, chunk, terminal}
use chute.Mux.Flow.Sending.{on_wire}
use chute.Mux.Limits.{Limits}
use chute.Prelude.Text.{Bytes}

abbrev pub content : List Item → Bytes
content [] = []
content (chunk c ∷ q) = c ++ content q
content (terminal ∷ q) = content q

abbrev pub IsTransparent : Link → Type 0
IsTransparent l =
    l.received ++ (content l.receiver.incoming ++ (on_wire l.wire ++ unsent l.sender.sender))
    ≡ l.written
