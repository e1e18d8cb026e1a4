-- ===== src/Client/Stream/Delivery.antt =====
-- From marshalled packets to the packets that readLoop of pkg/qmi/client.go hands on, through a byte
-- stream that is cut anywhere and carries noise between the frames.
use quectel_qmi_go.Common.{
  ℕ, suc, ◌+◌, ◌*◌, ◌/◌, ◌%◌, ◌≤◌, ◌<◌, ◌≡◌, refl, List, [], ◌∷◌, ◌++◌, append-nil, true, leb,
  length, All, Bytes, some, length-append, arith, map, take-length_append, drop-length_append,
}
use quectel_qmi_go.Wire.Header.{ok, marshal_frame_header}
use quectel_qmi_go.Wire.Packet.{Packet, marshal, unmarshal, marshal_body}
use quectel_qmi_go.Wire.Packet.RoundTrip.{
  IsSendable, received, unmarshal-marshal, length-marshal_body,
}
use quectel_qmi_go.Client.Stream.{is_marker, skip_to_marker, break, frame, scan, read_chunks}
use quectel_qmi_go.Client.Stream.Splits.{Splits, stops, takes, Splits-unique, split-Splits}
use quectel_qmi_go.Client.Stream.Chunks.{joined, Splits-garbage, read_chunks-joined}

-- A frame whose length field counts it stands for itself at the front of the stream.
scan-whole :
    (a b c : ℕ) (bs rest : Bytes)
    → is_marker a ≡ true
    → 3 ≤ length bs
    → suc (b + c * 256) ≡ suc (suc (suc (length bs)))
    → scan (a ∷ b ∷ c ∷ (bs ++ rest)) ≡ frame (a ∷ b ∷ c ∷ bs) rest
unfolding scan
scan-whole a b c bs rest m long e =
    rw e (
      ground (arith, length-append bs rest, take-length_append bs rest, drop-length_append bs rest))

scan-marshal :
    (p : Packet) (rest : Bytes) → IsSendable p → scan (marshal p ++ rest) ≡ frame (marshal p) rest
unfolding marshal marshal_frame_header
scan-marshal p rest v =
    let body = marshal_body p in
    let n = length body in
    let fits : n + 5 < 65536 = ground (arith, length-marshal_body p, v.room, v.service) in
    let count : suc ((n + 5) % 65536 % 256 + (n + 5) % 65536 / 256 % 256 * 256)
        ≡ suc (suc (suc (suc (suc (suc n))))) =
      omega arith in
    let e : leb p.service_type 0xff ≡ true = ground (arith, v.service) in
    rw e (
      scan-whole 0x01 _ _ (0x00 ∷ (p.service_type % 256) ∷ p.client_id ∷ body) rest refl
        (omega arith) count)

-- Noise and a packet, again and again.
abbrev pub stream : List (Bytes × Packet) → Bytes
stream [] = []
stream ((noise, p) ∷ more) = noise ++ (marshal p ++ stream more)

abbrev pub IsQuiet : Bytes × Packet → Type 0
IsQuiet (noise, p) = (skip_to_marker noise ≡ []) × IsSendable p

stream-Splits :
    (sent : List (Bytes × Packet))
    → All IsQuiet sent
    → (r : Bytes) × Splits (stream sent) (map (λ s. marshal s.1) sent) r
stream-Splits [] h = let e : scan [] ≡ break [] = unfold scan in refl in ([], stops e)
stream-Splits ((noise, p) ∷ more) h =
    let (r, w) = stream-Splits more h.1 in
    Splits-garbage noise (marshal p ++ stream more) r _ h.0.0
      (takes (scan-marshal p (stream more) h.0.1) w)

-- The packets that the frames parse as.
frames_parsed :
    (sent : List (Bytes × Packet))
    → All IsQuiet sent
    → map unmarshal (map (λ s. marshal s.1) sent) ≡ map (λ s. ok (received s.1)) sent
frames_parsed [] h = refl
frames_parsed ((noise, p) ∷ more) h =
    let one : unmarshal (marshal p) ≡ ok (received p) =
      rw append-nil at (unmarshal-marshal p [] h.0.1) in
    ground (arith, one, frames_parsed more h.1)

-- Send any packets of QMUX services, with any noise that has no marker byte before each, and let the
-- transport cut the bytes anywhere: the read loop ends after each chunk, and the frames that it has
-- found parse, in order, as the packets sent, as a receiver sees them.
pub delivery :
    (sent : List (Bytes × Packet)) (chunks : List Bytes)
    → All IsQuiet sent
    → joined chunks ≡ stream sent
    → (fs : List Bytes) × (r : Bytes) × (read_chunks [] chunks ≡ some (fs, r))
      × (map unmarshal fs ≡ map (λ s. ok (received s.1)) sent)
delivery sent chunks h e =
    let (fs, r, s, run, whole) = read_chunks-joined chunks in
    let (t, w) = stream-Splits sent h in
    let (gs, u, d, v) = split-Splits (joined chunks) in
    let w' : Splits (joined chunks) (map (λ x. marshal x.1) sent) t = rw e w in
    let same : gs ≡ map (λ x. marshal x.1) sent = (Splits-unique v w').0 in
    let found : fs ≡ gs = ground (arith, whole, d) in
    (fs, r, run, rw (found, same) (frames_parsed sent h))
