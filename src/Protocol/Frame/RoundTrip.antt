-- ===== src/Protocol/Frame/RoundTrip.antt =====
-- `pack_frame` and `unpack_frame` are inverse to one another.
use litearm_cpp.Base.{
  ℕ, ◌+◌, ◌*◌, ◌/◌, ◌^◌, ◌≤◌, ◌<◌, ◌≡◌, refl, sym, ap, ap₂, subst, ◌∙◌, ◌↔◌, ◌⊎◌, inl, inr, List,
  [], ◌∷◌, ◌++◌, some, arith, ltb, length, take, drop, length-append, length-take, length-drop,
  take-append, drop-append, take-append-drop, get_or-drop, length-two, All-drop, Bool-cases,
}
use litearm_cpp.Base.Bits.{bit_or_shifted}
use litearm_cpp.Errors.{ok, err, invalid_argument}
use litearm_cpp.Protocol.Crc.{crc16_ccitt_false}
use litearm_cpp.Protocol.Crc.Detect.{crc16-lt}
use litearm_cpp.Protocol.Frame.{
  Frame, IsByte, IsBytes, sof, u8, stored_crc, header_and_payload, crc_bytes, pack_frame,
  unpack_frame,
}

-- A frame taken apart: header, payload and the two bytes of a checksum that fits.
pub record Parts (frame : List ℕ) (cmd : ℕ) (payload : List ℕ) : Type 0 where
  pub low : ℕ
  pub high : ℕ
  pub short : length payload ≤ 255
  pub low_fits : low < 256
  pub high_fits : high < 256
  pub checksum : crc16_ccitt_false (header_and_payload cmd payload) ≡ low + high * 256
  pub frame_eq : frame ≡ header_and_payload cmd payload ++ low ∷ high ∷ []

stored_crc_lem :
    (body : List ℕ) (ln low high : ℕ)
    → length body ≡ 3 + ln
    → low < 256
    → high < 256
    → stored_crc (body ++ low ∷ high ∷ []) ln ≡ low + high * 256
stored_crc_lem body ln low high e p q =
    let rest = drop-append (3 + ln) body (low ∷ high ∷ []) e in
    rw
      (
        get_or-drop (body ++ low ∷ high ∷ []) (3 + ln) 0 (3 + ln) 0 (omega arith),
        get_or-drop (body ++ low ∷ high ∷ []) (3 + ln) 1 (4 + ln) 0 (omega arith),
        rest,
        bit_or_shifted 8 low high p,
      )
      (omega arith)

length_short : (payload : List ℕ) → length payload ≤ 255 → u8 (length payload) ≡ length payload
length_short payload h = omega arith

pub Parts→unpack :
    (frame : List ℕ) (cmd : ℕ) (payload : List ℕ)
    → Parts frame cmd payload
    → unpack_frame frame ≡ some (record { cmd = cmd; payload = payload })
unfolding unpack_frame
Parts→unpack frame cmd payload p =
    let n = length payload in
    let body = header_and_payload cmd payload in
    let tail = p.low ∷ p.high ∷ [] in
    let size : length body ≡ 3 + n = omega arith in
    rw p.frame_eq (
      ground (
        arith,
        length_short payload p.short,
        length-append payload tail,
        take-append (3 + n) body tail size,
        take-append n payload tail refl,
        stored_crc_lem body n p.low p.high size p.low_fits p.high_fits,
        p.checksum,
      ))

crc_bytes_lem : (crc : ℕ) → crc < 2 ^ 16 → crc ≡ u8 crc + u8 (crc / 2 ^ 8) * 256
crc_bytes_lem crc h = omega arith

pub pack→Parts :
    (frame : List ℕ) (cmd : ℕ) (payload : List ℕ)
    → pack_frame cmd payload ≡ ok frame
    → Parts frame cmd payload
unfolding pack_frame
pack→Parts frame cmd payload e =
    let crc = crc16_ccitt_false (header_and_payload cmd payload) in
    record {
      low = u8 crc;
      high = u8 (crc / 2 ^ 8);
      short = ground arith;
      low_fits = omega arith;
      high_fits = omega arith;
      checksum = crc_bytes_lem crc (crc16-lt (header_and_payload cmd payload));
      frame_eq = ground arith;
    }

pub Parts→pack :
    (frame : List ℕ) (cmd : ℕ) (payload : List ℕ)
    → Parts frame cmd payload
    → pack_frame cmd payload ≡ ok frame
unfolding pack_frame
Parts→pack frame cmd payload p =
    let crc = crc16_ccitt_false (header_and_payload cmd payload) in
    let low : u8 crc ≡ p.low = omega (arith, p.checksum) in
    let high : u8 (crc / 2 ^ 8) ≡ p.high = omega (arith, p.checksum) in
    rw p.frame_eq (ground (arith, p.short))

-- What a successful `unpack_frame` has checked.
unpack_checks :
    (a b c : ℕ) (rest : List ℕ) (f : Frame)
    → unpack_frame (a ∷ b ∷ c ∷ rest) ≡ some f
    → (a ≡ sof)
      × (length rest ≡ c + 2)
      × (crc16_ccitt_false (take (3 + c) (a ∷ b ∷ c ∷ rest)) ≡ stored_crc (a ∷ b ∷ c ∷ rest) c)
      × (f ≡ record { cmd = b; payload = take c rest })
unfolding unpack_frame
unpack_checks a b c rest f e = ground arith

-- Any three bytes, a payload that the third byte counts, and two bytes whose checksum fits.
counted-Parts :
    (frame : List ℕ) (y z low high : ℕ) (payload : List ℕ)
    → frame ≡ (sof ∷ y ∷ z ∷ payload) ++ low ∷ high ∷ []
    → z < 256
    → low < 256
    → high < 256
    → length payload ≡ z
    → crc16_ccitt_false (take (3 + z) frame) ≡ stored_crc frame z
    → Parts frame y payload
counted-Parts frame y z low high payload whole hz hl hh n e =
    let counted = sof ∷ y ∷ z ∷ payload in
    let tail = low ∷ high ∷ [] in
    let size : length counted ≡ 3 + z = omega arith in
    let count : u8 (length payload) ≡ z = omega arith in
    let body_eq : header_and_payload y payload ≡ counted = rw count in
    record {
      low = low;
      high = high;
      short = omega arith;
      low_fits = hl;
      high_fits = hh;
      checksum =
          ap crc16_ccitt_false (
            body_eq ∙ (sym (take-append (3 + z) counted tail size) ∙ ap (take (3 + z)) (sym whole)))
          ∙ (e ∙ (ap (λ t. stored_crc t z) whole ∙ stored_crc_lem counted z low high size hl hh));
      frame_eq = whole ∙ ap (λ t. t ++ tail) (sym body_eq);
    }

unpack_counted :
    (x y z : ℕ) (rest : List ℕ) (f : Frame)
    → IsBytes (x ∷ y ∷ z ∷ rest)
    → unpack_frame (x ∷ y ∷ z ∷ rest) ≡ some f
    → Parts (x ∷ y ∷ z ∷ rest) f.cmd f.payload
unpack_counted x y z rest f b e =
    let (start, size, checksum, f_eq) = unpack_checks x y z rest f e in
    let (low, high, tail) = length-two (drop z rest) (omega (arith, length-drop z rest)) in
    let bytes : IsBytes (low ∷ high ∷ []) = subst IsBytes tail (All-drop IsByte z rest b.1.1.1) in
    let whole : rest ≡ take z rest ++ low ∷ high ∷ [] =
      sym (take-append-drop z rest) ∙ ap (λ t. take z rest ++ t) tail in
    let count : length (take z rest) ≡ z = omega (arith, length-take z rest) in
    subst (λ (g : Frame). Parts (x ∷ y ∷ z ∷ rest) g.cmd g.payload) (sym f_eq)
      (counted-Parts (x ∷ y ∷ z ∷ rest) y z low high (take z rest)
        (ap₂ (λ a r. a ∷ y ∷ z ∷ r) start whole) b.1.1.0 bytes.0 bytes.1.0 count checksum)

pub unpack→Parts :
    (frame : List ℕ) (f : Frame)
    → IsBytes frame
    → unpack_frame frame ≡ some f
    → Parts frame f.cmd f.payload
unfolding unpack_frame
unpack→Parts [] f b e = ground arith
unpack→Parts (x ∷ []) f b e = ground arith
unpack→Parts (x ∷ y ∷ []) f b e = ground arith
unpack→Parts (x ∷ y ∷ z ∷ rest) f b e = unpack_counted x y z rest f b e

-- On byte sequences `unpack_frame` accepts exactly the frames that `pack_frame` makes, and gives
-- back the command and the payload that went in.
pub unpack-pack_iff :
    (frame : List ℕ) (f : Frame)
    → IsBytes frame
    → (unpack_frame frame ≡ some f) ↔ (pack_frame f.cmd f.payload ≡ ok frame)
unpack-pack_iff frame f b = (
  (λ e. Parts→pack frame f.cmd f.payload (unpack→Parts frame f b e)),
  (λ e. Parts→unpack frame f.cmd f.payload (pack→Parts frame f.cmd f.payload e)),
)

-- Every payload of up to 255 bytes can be sent: its frame unpacks to the command and the payload,
-- and is five bytes longer. A longer payload is refused.
pub pack_cases :
    (cmd : ℕ) (payload : List ℕ)
    → ((length payload ≤ 255)
        × ((frame : List ℕ) × (pack_frame cmd payload ≡ ok frame)
            × (unpack_frame frame ≡ some (record { cmd = cmd; payload = payload }))
            × (length frame ≡ length payload + 5)))
      ⊎ ((255 < length payload) × (pack_frame cmd payload ≡ err invalid_argument))
unfolding pack_frame
pack_cases cmd payload = elim (Bool-cases (ltb 255 (length payload))) [
  | inl long ↦ inr (ground arith, rw long)
  | inr short ↦
      let body = header_and_payload cmd payload in
      let tail = crc_bytes (crc16_ccitt_false body) in
      let packed : pack_frame cmd payload ≡ ok (body ++ tail) = rw short in
      inl (
        ground arith,
        (
          body ++ tail,
          rw short,
          Parts→unpack (body ++ tail) cmd payload (pack→Parts (body ++ tail) cmd payload packed),
          omega (arith, length-append payload tail),
        ),
      )
]
