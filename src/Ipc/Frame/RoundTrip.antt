-- ===== src/Ipc/Frame/RoundTrip.antt =====
-- Framing both ways: what is sent is what is received, and what is received was framed.
use connext_triad.Prelude.{
  ℕ, ◌+◌, ◌-◌, ◌≤◌, ◌<◌, ◌≡◌, refl, none, some, List, [], ◌++◌, length, take, drop, ◌^◌, arith, ◌∙◌,
  ap, ap₂, sym, append_assoc, take-append-drop, length-drop,
}
use connext_triad.Ipc.Bytes.{
  htons-htons, htonl-htonl, htonll-htonll, htons-lt, htonl-lt, htonll-lt, fetch-store_2,
  fetch-store_4, fetch-store_8, AreBytes, store-fetch_field, fetch-lt_field,
}
use connext_triad.Ipc.Frame.{
  Header, header_magic, header_version, to_wire, of_wire, to_bytes, of_bytes, packet, parse,
  checked,
}

-- What fits the fields of the packed struct.
pub record Fits (h : Header) : Type 0 where
  pub magic : h.magic < 2 ^ 32
  pub version : h.version < 2 ^ 16
  pub type : h.type < 2 ^ 16
  pub corr_id : h.corr_id < 2 ^ 32
  pub length : h.length < 2 ^ 32
  pub ts_ns : h.ts_ns < 2 ^ 64

pub Header-eq :
    (g h : Header)
    → g.magic ≡ h.magic
    → g.version ≡ h.version
    → g.type ≡ h.type
    → g.corr_id ≡ h.corr_id
    → g.length ≡ h.length
    → g.ts_ns ≡ h.ts_ns
    → g ≡ h
Header-eq g h a b c d e f =
    λ i. record { magic = a i; version = b i; type = c i; corr_id = d i; length = e i; ts_ns = f i }

of_wire-to_wire : (h : Header) → Fits h → of_wire (to_wire h) ≡ h
unfolding of_wire to_wire
of_wire-to_wire h v =
    Header-eq _ h (htonl-htonl h.magic v.magic) (htons-htons h.version v.version)
      (htons-htons h.type v.type) (htonl-htonl h.corr_id v.corr_id) (htonl-htonl h.length v.length)
      (htonll-htonll h.ts_ns v.ts_ns)

to_wire-Fits : (h : Header) → Fits (to_wire h)
unfolding to_wire
to_wire-Fits h = record {
  magic = htonl-lt h.magic;
  version = htons-lt h.version;
  type = htons-lt h.type;
  corr_id = htonl-lt h.corr_id;
  length = htonl-lt h.length;
  ts_ns = htonll-lt h.ts_ns;
}

of_bytes-to_bytes : (h : Header) (rest : List ℕ) → Fits h → of_bytes (to_bytes h ++ rest) ≡ h
unfolding of_bytes to_bytes
of_bytes-to_bytes h rest v =
    Header-eq _ h (fetch-store_4 h.magic v.magic) (fetch-store_2 h.version v.version)
      (fetch-store_2 h.type v.type) (fetch-store_4 h.corr_id v.corr_id)
      (fetch-store_4 h.length v.length) (fetch-store_8 h.ts_ns v.ts_ns)

-- `send_raw` fills its header from these.
abbrev pub sent_header : ℕ → ℕ → List ℕ → ℕ → Header
sent_header type corr_id payload now_ns = record {
  magic = header_magic;
  version = header_version;
  type = type;
  corr_id = corr_id;
  length = length payload;
  ts_ns = now_ns;
}

parse-of_header :
    (w : Header) (payload : List ℕ)
    → Fits w
    → parse (to_bytes w ++ payload) ≡ checked (24 + length payload) (of_wire w) payload
unfolding parse to_bytes
parse-of_header w payload v =
    ap₂ (λ n h. checked n h payload) (omega arith) (ap of_wire (of_bytes-to_bytes w payload v))

checked_lem :
    (h : Header) (payload : List ℕ)
    → 0 < length payload
    → h.magic ≡ header_magic
    → h.version ≡ header_version
    → h.length ≡ length payload
    → checked (24 + length payload) h payload ≡ some (h, payload)
unfolding checked
checked_lem h payload p m v l = ground arith

-- What `send_raw` frames, `recv_loop` takes apart again: if the payload is not empty and the type,
-- correlation id, length and time fit their fields, the datagram is accepted with the type,
-- correlation id, timestamp and payload that were sent.
pub parse-packet :
    (type corr_id : ℕ) (payload : List ℕ) (now_ns : ℕ)
    → type < 2 ^ 16
    → corr_id < 2 ^ 32
    → 0 < length payload
    → length payload < 2 ^ 32
    → now_ns < 2 ^ 64
    → parse (packet type corr_id payload now_ns)
      ≡ some (sent_header type corr_id payload now_ns, payload)
unfolding packet
parse-packet type corr_id payload now_ns ht hc h0 hl hn =
    parse-of_header _ payload (to_wire-Fits _)
    ∙ ap (λ h. checked (24 + length payload) h payload)
        (of_wire-to_wire (sent_header type corr_id payload now_ns) fits)
    ∙ checked_lem (sent_header type corr_id payload now_ns) payload h0 refl refl refl
  where
    fits : Fits (sent_header type corr_id payload now_ns)
    fits = record {
      magic = omega arith;
      version = omega arith;
      type = ht;
      corr_id = hc;
      length = hl;
      ts_ns = hn;
    }

-- A bare header is no message.
pub parse-packet_nil : (type corr_id now_ns : ℕ) → parse (packet type corr_id [] now_ns) ≡ none
unfolding packet checked
parse-packet_nil type corr_id now_ns = parse-of_header _ [] (to_wire-Fits _)

to_wire-of_wire : (w : Header) → Fits w → to_wire (of_wire w) ≡ w
unfolding of_wire to_wire
to_wire-of_wire w v =
    Header-eq _ w (htonl-htonl w.magic v.magic) (htons-htons w.version v.version)
      (htons-htons w.type v.type) (htonl-htonl w.corr_id v.corr_id) (htonl-htonl w.length v.length)
      (htonll-htonll w.ts_ns v.ts_ns)

join : {a b c d : List ℕ} → a ≡ b → c ≡ d → a ++ c ≡ b ++ d
join p q = ap₂ ◌++◌ p q

regroup :
    (a b c d e f r : List ℕ)
    → (a ++ (b ++ (c ++ (d ++ (e ++ f))))) ++ r ≡ a ++ (b ++ (c ++ (d ++ (e ++ (f ++ r)))))
regroup a b c d e f r = simp append_assoc

module _ (bs : List ℕ) (h : AreBytes bs) (long : 24 ≤ length bs) where
  of_bytes-Fits : Fits (of_bytes bs)
  unfolding of_bytes
  of_bytes-Fits = record {
    magic = fetch-lt_field 0 4 bs h (omega arith);
    version = fetch-lt_field 4 2 bs h (omega arith);
    type = fetch-lt_field 6 2 bs h (omega arith);
    corr_id = fetch-lt_field 8 4 bs h (omega arith);
    length = fetch-lt_field 12 4 bs h (omega arith);
    ts_ns = fetch-lt_field 16 8 bs h (omega arith);
  }

  to_bytes-of_bytes : to_bytes (of_bytes bs) ++ drop 24 bs ≡ bs
  unfolding of_bytes to_bytes
  to_bytes-of_bytes =
      ap₂ ◌++◌
        (join (store-fetch_field 0 4 bs h (omega arith)) (
          join (store-fetch_field 4 2 bs h (omega arith)) (
            join (store-fetch_field 6 2 bs h (omega arith)) (
              join (store-fetch_field 8 4 bs h (omega arith)) (
                join (store-fetch_field 12 4 bs h (omega arith))
                  (store-fetch_field 16 8 bs h (omega arith)))))))
        refl
      ∙ regroup (take 4 bs) (take 2 (drop 4 bs)) (take 2 (drop 6 bs)) (take 4 (drop 8 bs))
          (take 4 (drop 12 bs)) (take 8 (drop 16 bs)) (drop 24 bs)
      ∙ join refl (
          join refl (
            join refl (
              join refl (join refl (take-append-drop 16 8 bs) ∙ take-append-drop 12 4 bs)
              ∙ take-append-drop 8 4 bs)
            ∙ take-append-drop 6 2 bs)
          ∙ take-append-drop 4 2 bs)
      ∙ take-append-drop 0 4 bs

checked-some :
    (n : ℕ) (h k : Header) (payload rest : List ℕ)
    → checked n h payload ≡ some (k, rest)
    → (24 < n) × (k ≡ h) × (rest ≡ payload) × (h.length ≡ n - 24) × (h.magic ≡ header_magic)
unfolding checked
checked-some n h k payload rest e = ground arith

-- What `recv_loop` accepts is a framed message: if a datagram of bytes is accepted, it is the wire
-- form of the header that the callback gets, followed by the payload that it gets, and the header
-- states the length of that payload, which is not empty.
pub parse_sound :
    (bs : List ℕ) (h : Header) (payload : List ℕ)
    → AreBytes bs
    → parse bs ≡ some (h, payload)
    → (bs ≡ to_bytes (to_wire h) ++ payload) × (h.length ≡ length payload) × (0 < length payload)
unfolding parse
parse_sound bs h payload b e =
    let (long, same, rest, states, _) =
      checked-some (length bs) (of_wire (of_bytes bs)) h (drop 24 bs) payload e in
    (
      sym (
          join
            (ap to_bytes
              (ap to_wire same ∙ to_wire-of_wire (of_bytes bs) (of_bytes-Fits bs b (omega arith))))
            rest
          ∙ to_bytes-of_bytes bs b (omega arith)),
      ap (λ k. k.length) same ∙ states ∙ sym (ap length rest ∙ length-drop 24 bs),
      omega (arith, ap length rest, length-drop 24 bs),
    )
