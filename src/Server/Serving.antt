-- ===== src/Server/Serving.antt =====
-- src/ntp/server.rs: `serve_loop`, over what the socket receives in turn.
use ntp_time_json_api.Common.{
  ℕ, zero, suc, ◌+◌, ◌≤◌, ◌≡◌, refl, Bool, Option, none, some, List, [], ◌∷◌, All, IsByte, take,
  length, ◌==◌, if◌then◌else◌, arith,
}
use ntp_time_json_api.Common.Float.{Float}
use ntp_time_json_api.Server.{Readings, NtpServer, handle_request}
use ntp_time_json_api.Server.Limiter.{Ip}
use ntp_time_json_api.Server.Handling.{handle_request-length}

-- A datagram with the readings of its request and whether its answer can be sent, or an error of
-- the socket, which is logged.
pub data Received : Type 0 where
  datagram : (at : Readings) (sends : Bool) (peer : Ip) (bytes : List ℕ) → Received
  recv_fails : Received

abbrev pub Answers : Type 0
Answers = List (Ip × List ℕ)

abbrev add_answer : Ip → Option (List ℕ) → Answers → Answers
add_answer peer none answers = answers
add_answer peer (some wire) answers = (peer, wire) ∷ answers

-- A datagram that is longer than the buffer is cut by the socket.
unfoldable pub serve_loop :
    (F : Type 0) ⦃fl : Float F⦄
    → (max_packet_size : ℕ) → List Received
    → NtpServer F
    → NtpServer F × Answers
unfolding handle_request
serve_loop F max_packet_size [] s = (s, [])
serve_loop F max_packet_size (recv_fails ∷ rs) s = serve_loop F max_packet_size rs s
serve_loop F max_packet_size (datagram at sends peer bytes ∷ rs) s =
    let (s, answer) = handle_request F at sends peer (take max_packet_size bytes) s in
    let (s, answers) = serve_loop F max_packet_size rs s in (s, add_answer peer answer answers)

-- The bytes that were sent to an address, and those that came from it.
abbrev pub sent_to : Ip → Answers → ℕ
sent_to ip [] = 0
sent_to ip ((peer, wire) ∷ answers) =
    let rest = sent_to ip answers in if peer == ip then length wire + rest else rest

abbrev pub received_from : Ip → List Received → ℕ
received_from ip [] = 0
received_from ip (recv_fails ∷ rs) = received_from ip rs
received_from ip (datagram at sends peer bytes ∷ rs) =
    let rest = received_from ip rs in if peer == ip then length bytes + rest else rest

abbrev pub OfBytes : Received → Type 0
OfBytes (datagram at sends peer bytes) = All IsByte bytes
OfBytes recv_fails = Unit {0}

length-take : (n : ℕ) (bytes : List ℕ) → length (take n bytes) ≤ length bytes
length-take zero bytes = omega arith
length-take (suc n) [] = omega arith
length-take (suc n) (b ∷ bytes) = omega (arith, length-take n bytes)

take-IsByte : (n : ℕ) (bytes : List ℕ) → All IsByte bytes → All IsByte (take n bytes)
take-IsByte zero bytes h = tt
take-IsByte (suc n) [] h = tt
take-IsByte (suc n) (b ∷ bytes) h = (h.0, take-IsByte n bytes h.1)

one_answer :
    (ip peer : Ip) (bytes : List ℕ) (o : Option (List ℕ)) (answers : Answers) (received : ℕ)
    → ((wire : List ℕ) → o ≡ some wire → length wire ≤ length bytes)
    → sent_to ip answers ≤ received
    → sent_to ip (add_answer peer o answers)
      ≤ (if peer == ip then length bytes + received else received)
one_answer ip peer bytes none answers received short h = ground (arith, h)
one_answer ip peer bytes (some wire) answers received short h = ground (arith, h, short wire refl)

-- Whatever datagrams of bytes come in whatever order, no address is sent more bytes than came from it.
pub serve_loop-sent_to :
    (F : Type 0) ⦃fl : Float F⦄ (max_packet_size : ℕ) (rs : List Received) (s : NtpServer F)
    (ip : Ip)
    → All OfBytes rs
    → sent_to ip (serve_loop F max_packet_size rs s).1 ≤ received_from ip rs
unfolding serve_loop
serve_loop-sent_to F max_packet_size [] s ip h = omega arith
serve_loop-sent_to F max_packet_size (recv_fails ∷ rs) s ip h =
    serve_loop-sent_to F max_packet_size rs s ip h.1
serve_loop-sent_to F max_packet_size (datagram at sends peer bytes ∷ rs) s ip h =
    let cut = take max_packet_size bytes in
    let (s', answer) = handle_request F at sends peer cut s in
    one_answer ip peer bytes answer (serve_loop F max_packet_size rs s').1 (received_from ip rs)
      (λ wire e.
        let short =
          handle_request-length F at sends peer cut wire s (take-IsByte max_packet_size bytes h.0)
            e in
        omega (arith, short, length-take max_packet_size bytes))
      (serve_loop-sent_to F max_packet_size rs s' ip h.1)
