-- ===== src/Server/Replies.antt =====
-- src/ntp/server.rs: what the server answers.
use ntp_time_json_api.Common.{
  ℕ, ◌^◌, ◌<◌, ◌≡◌, refl, ap, subst, Bool, true, false, ◌||◌, Option, none, some, List, arith,
  if◌then◌else◌, if_intro, if_cases,
}
use ntp_time_json_api.Common.Float.{Float}
use ntp_time_json_api.Samples.{Instant, SyncQuality}
use ntp_time_json_api.Protocol.{NtpPacket, InRange, first_byte, serialize_packet}
use ntp_time_json_api.Protocol.Timestamps.{unix_ms_to_ntp-lt}
use ntp_time_json_api.TimeBase.{TimeBase, now_ms, has_synced, is_manual_active}
use ntp_time_json_api.Server.{
  Readings, NtpServer, build_response, write_transmit, answer, root_fields, manual_response,
  ntp_response, read_clock,
}
use ntp_time_json_api.Server.Short.{ms_to_ntp_short-lt, ms_to_ntp_short_f64-lt}

-- An answer to a request: of version 4 and mode 4, with the request's transmit timestamp as its
-- origin. It is a stratum-2 time if `trusted`, and else the alarm with stratum 16.
pub record Replies (request reply : NtpPacket) (trusted : Bool) : Type 0 where
  pub version : reply.vn ≡ 4
  pub mode : reply.mode ≡ 4
  pub origin : reply.origin_timestamp ≡ request.transmit_timestamp
  pub poll : reply.poll ≡ request.poll
  pub leap : reply.li ≡ (if trusted then 0 else 3)
  pub stratum : reply.stratum ≡ (if trusted then 2 else 16)

abbrev pub IsReply : NtpPacket → Bool → NtpPacket → Type 0
IsReply request trusted reply = InRange reply × Replies request reply trusted

module _ (request : NtpPacket) (receive_ntp : ℕ) (r : InRange request)
    (small : receive_ntp < 2 ^ 64) where
  reply-InRange :
      (F : Type 0) ⦃fl : Float F⦄ (synced : Bool) (root : ℕ × ℕ)
      → root.0 < 2 ^ 32
      → root.1 < 2 ^ 32
      → InRange (ntp_response F synced root request receive_ntp)
  reply-InRange F synced root l d = record {
    li_bits = ground arith;
    vn_bits = omega arith;
    mode_bits = omega arith;
    stratum_u8 = ground arith;
    poll_i8 = r.poll_i8;
    precision_i8 = ground arith;
    root_delay_u32 = l;
    root_dispersion_u32 = d;
    reference_id_u32 = ground arith;
    ref_u64 = ground arith;
    origin_u64 = r.transmit_u64;
    receive_u64 = small;
    transmit_u64 = small;
  }

  manual-InRange :
      (F : Type 0) ⦃fl : Float F⦄ (disp_ms : ℕ)
      → InRange (manual_response F request receive_ntp disp_ms)
  manual-InRange F disp_ms = record {
    li_bits = omega arith;
    vn_bits = omega arith;
    mode_bits = omega arith;
    stratum_u8 = omega arith;
    poll_i8 = r.poll_i8;
    precision_i8 = ground arith;
    root_delay_u32 = omega arith;
    root_dispersion_u32 = ms_to_ntp_short-lt disp_ms;
    reference_id_u32 = omega arith;
    ref_u64 = small;
    origin_u64 = r.transmit_u64;
    receive_u64 = small;
    transmit_u64 = small;
  }

-- The transmit timestamp is written over its eight bytes, as if it had been in the packet.
write_transmit-serialize_packet :
    (p : NtpPacket) (t : ℕ)
    → write_transmit (serialize_packet p) t ≡ serialize_packet (record p { transmit_timestamp = t })
unfolding write_transmit serialize_packet first_byte
write_transmit-serialize_packet p t = refl

module _ (F : Type 0) ⦃fl : Float F⦄ where
  root_fields-lt :
      (synced : Bool) (quality : Option SyncQuality) (now : Instant) (max_ms : ℕ)
      → ((root_fields F synced quality now max_ms).0 < 2 ^ 32)
        × ((root_fields F synced quality now max_ms).1 < 2 ^ 32)
  root_fields-lt true (some q) now max_ms = (ms_to_ntp_short-lt _, ms_to_ntp_short_f64-lt F _)
  root_fields-lt true none now max_ms = omega arith
  root_fields-lt false quality now max_ms = omega arith

  ntp_response-Replies :
      (synced : Bool) (root : ℕ × ℕ) (request : NtpPacket) (receive_ntp : ℕ)
      → Replies request (ntp_response F synced root request receive_ntp) synced
  ntp_response-Replies synced root request receive_ntp = record {
    version = refl;
    mode = refl;
    origin = refl;
    poll = refl;
    leap = refl;
    stratum = refl;
  }

  is_manual_active-synced :
      (now : Instant) (tb : TimeBase) → has_synced (is_manual_active now tb).0 ≡ has_synced tb
  unfolding is_manual_active has_synced
  is_manual_active-synced now tb = ground arith

  build_response-Replies :
      (at : Readings) (tb : TimeBase) (request : NtpPacket) (receive_ntp : ℕ)
      (quality : Option SyncQuality) (max_ms manual_ms : ℕ)
      → InRange request
      → receive_ntp < 2 ^ 64
      → IsReply request
          ((is_manual_active at.at_manual tb).1 || has_synced tb)
          (build_response F at tb request receive_ntp quality max_ms manual_ms).1
  unfolding build_response
  build_response-Replies at tb request receive_ntp quality max_ms manual_ms r small =
      let manual = (is_manual_active at.at_manual tb).1 in
      let tb' = (is_manual_active at.at_manual tb).0 in
      let root = root_fields F (has_synced tb') quality at.at_dispersion max_ms in
      let fits = root_fields-lt (has_synced tb') quality at.at_dispersion max_ms in
      if_cases (λ (x : TimeBase × NtpPacket). IsReply request (manual || has_synced tb) x.1) manual
        (λ on. rw on (
          manual-InRange request receive_ntp r small F _,
          record {
            version = refl;
            mode = refl;
            origin = refl;
            poll = refl;
            leap = refl;
            stratum = refl;
          },
        ))
        (λ off. rw off (
          reply-InRange request receive_ntp r small F (has_synced tb') root fits.0 fits.1,
          subst (λ b. Replies request (ntp_response F (has_synced tb') root request receive_ntp) b)
              (is_manual_active-synced at.at_manual tb)
              (ntp_response-Replies (has_synced tb') root request receive_ntp),
        ))

  stamped-IsReply :
      (request : NtpPacket) (trusted : Bool) (reply : NtpPacket) (t : ℕ)
      → t < 2 ^ 64
      → IsReply request trusted reply
      → IsReply request trusted (record reply { transmit_timestamp = t })
  stamped-IsReply request trusted reply t h (r, v) = (
    record {
      li_bits = r.li_bits;
      vn_bits = r.vn_bits;
      mode_bits = r.mode_bits;
      stratum_u8 = r.stratum_u8;
      poll_i8 = r.poll_i8;
      precision_i8 = r.precision_i8;
      root_delay_u32 = r.root_delay_u32;
      root_dispersion_u32 = r.root_dispersion_u32;
      reference_id_u32 = r.reference_id_u32;
      ref_u64 = r.ref_u64;
      origin_u64 = r.origin_u64;
      receive_u64 = r.receive_u64;
      transmit_u64 = h;
    },
    record {
      version = v.version;
      mode = v.mode;
      origin = v.origin;
      poll = v.poll;
      leap = v.leap;
      stratum = v.stratum;
    },
  )

  -- Whether an answer that is built now will vouch for its time.
  abbrev pub vouches : Readings → NtpServer F → Bool
  vouches at s =
      let tb = (now_ms at.at_receive s.timebase).0 in
      (is_manual_active at.at_manual tb).1 || has_synced tb

  pub answer-IsReply :
      (at : Readings) (sends : Bool) (request : NtpPacket) (s : NtpServer F)
      → InRange request
      → (reply : NtpPacket) × ((answer F at sends request s).1 ≡ some (serialize_packet reply))
        × IsReply request (vouches at s) reply
  unfolding answer
  answer-IsReply at sends request s r =
      let (tb, receive_ntp) = read_clock F at.at_receive at.system_receive s.timebase in
      let built =
        build_response F at tb request receive_ntp s.last_sync_quality s.max_root_dispersion_ms
          s.manual_dispersion_ms in
      let transmit_ntp = (read_clock F at.at_transmit at.system_transmit built.0).1 in
      let reply = record built.1 { transmit_timestamp = transmit_ntp } in
      (
        reply,
        if_intro (λ (x : NtpServer F × Option (List ℕ)). x.1 ≡ some (serialize_packet reply)) sends
            (ap some (write_transmit-serialize_packet built.1 transmit_ntp))
            (ap some (write_transmit-serialize_packet built.1 transmit_ntp)),
        stamped-IsReply request (vouches at s) built.1 transmit_ntp (unix_ms_to_ntp-lt _) (
            build_response-Replies at tb request receive_ntp s.last_sync_quality
              s.max_root_dispersion_ms s.manual_dispersion_ms r (unix_ms_to_ntp-lt _)),
      )
