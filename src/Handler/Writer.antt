-- ===== src/Handler/Writer.antt =====
-- `retryableWriter` of internal/handler/handler.go: it passes each call on to the client's writer and
-- remembers whether anything was written.
use go_loadbalancer.Prelude.{
  ℕ, ◌≡◌, refl, sym, ◌∙◌, Bool, true, false, List, [], ◌∷◌, ◌++◌, String, if◌then◌else◌,
}
use mathlib.Core.List.{append-nil, append_assoc}

pub data WriterCall : Type 0 where
  header : ℕ → WriterCall
  body : String → WriterCall

-- `client` is what the embedded `ResponseWriter` received.
pub record RetryableWriter : Type 0 where
  pub client : List WriterCall
  pub header_written : Bool
  pub status_code : ℕ

unfoldable pub wrap_writer : List WriterCall → RetryableWriter
wrap_writer client = record { client = client; header_written = false; status_code = 200 }

unfoldable write_header : ℕ → RetryableWriter → RetryableWriter
write_header code w = record {
  client = w.client ++ (header code ∷ []);
  header_written = true;
  status_code = code;
}

unfoldable write : String → RetryableWriter → RetryableWriter
write b w = record {
  client = w.client ++ (body b ∷ []);
  header_written = true;
  status_code = if w.header_written then w.status_code else 200;
}

abbrev call : WriterCall → RetryableWriter → RetryableWriter
call (header code) w = write_header code w
call (body b) w = write b w

unfoldable pub write_all : List WriterCall → RetryableWriter → RetryableWriter
unfolding write_header write
write_all [] w = w
write_all (c ∷ cs) w = write_all cs (call c w)

-- The client receives the calls unchanged and in order.
pub write_all-client :
    (cs : List WriterCall) (w : RetryableWriter) → (write_all cs w).client ≡ w.client ++ cs
unfolding write_all
write_all-client [] w = sym (append-nil w.client)
write_all-client (header code ∷ cs) w =
    write_all-client cs (write_header code w) ∙ append_assoc w.client (header code ∷ []) cs
write_all-client (body b ∷ cs) w =
    write_all-client cs (write b w) ∙ append_assoc w.client (body b ∷ []) cs

stays_written :
    (cs : List WriterCall) (w : RetryableWriter)
    → w.header_written ≡ true
    → (write_all cs w).header_written ≡ true
unfolding write_all
stays_written [] w h = h
stays_written (header code ∷ cs) w h = stays_written cs (write_header code w) refl
stays_written (body b ∷ cs) w h = stays_written cs (write b w) refl

-- If the header has not been written, nothing has.
pub unwritten-nil :
    (cs : List WriterCall) (client : List WriterCall)
    → (write_all cs (wrap_writer client)).header_written ≡ false
    → cs ≡ []
unfolding write_all wrap_writer
unwritten-nil [] client h = refl
unwritten-nil (header code ∷ cs) client h =
    let e = stays_written cs (write_header code (wrap_writer client)) refl in cc
unwritten-nil (body b ∷ cs) client h =
    let e = stays_written cs (write b (wrap_writer client)) refl in cc
