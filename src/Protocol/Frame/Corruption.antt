-- ===== src/Protocol/Frame/Corruption.antt =====
-- A frame with one byte changed is refused.
use litearm_cpp.Base.{
  ℕ, ◌+◌, ◌*◌, ◌<◌, ◌≡◌, ◌≢◌, refl, sym, ap, ap₂, subst, ◌∙◌, ◌⊎◌, inl, inr, List, [], ◌∷◌, ◌++◌,
  none, some, arith, length, length-append, Option-cases, append_inj, All-append, All-split,
}
use litearm_cpp.Protocol.Crc.{crc16_ccitt_false}
use litearm_cpp.Protocol.Crc.Detect.{crc16_detects_byte}
use litearm_cpp.Protocol.Frame.{Frame, IsByte, IsBytes, unpack_frame, header_and_payload}
use litearm_cpp.Protocol.Frame.RoundTrip.{Parts, unpack→Parts}

-- Where the changed byte stands: in the checked part, or in the two bytes behind it.
Change : (before after : List ℕ) (x y : ℕ) (h k t u : List ℕ) → Type 0
Change before after x y h k t u =
    ((t ≡ u) × ((rest : List ℕ) × (h ≡ before ++ x ∷ rest) × (k ≡ before ++ y ∷ rest)))
    ⊎ ((h ≡ k) × ((gap : List ℕ) × (t ≡ gap ++ x ∷ after) × (u ≡ gap ++ y ∷ after)))

Change-cons :
    (before after : List ℕ) (x y a : ℕ) (h k t u : List ℕ)
    → Change before after x y h k t u
    → Change (a ∷ before) after x y (a ∷ h) (a ∷ k) t u
unfolding Change
Change-cons before after x y a h k t u (inl (e, (rest, p, q))) =
    inl (e, (rest, ap (◌∷◌ a) p, ap (◌∷◌ a) q))
Change-cons before after x y a h k t u (inr (e, gap)) = inr (ap (◌∷◌ a) e, gap)

Change-lem :
    (before after : List ℕ) (x y : ℕ) (h k t u : List ℕ)
    → before ++ x ∷ after ≡ h ++ t
    → before ++ y ∷ after ≡ k ++ u
    → length h ≡ length k
    → Change before after x y h k t u
unfolding Change
Change-lem before after x y [] [] t u e d n = inr (refl, (before, sym e, sym d))
Change-lem before after x y [] (b ∷ k) t u e d n = absurd (omega arith)
Change-lem before after x y (a ∷ h) [] t u e d n = absurd (omega arith)
Change-lem [] after x y (a ∷ h) (b ∷ k) t u e d n =
    let rest : h ++ t ≡ k ++ u = cc in
    let same = append_inj h k t u rest (omega arith) in
    let here : a ≡ x = cc in
    let there : b ≡ y = cc in inl (same.1, (h, ap (λ v. v ∷ h) here, ap₂ ◌∷◌ there (sym same.0)))
Change-lem (c ∷ before) after x y (a ∷ h) (b ∷ k) t u e d n =
    let below =
      Change-cons before after x y c h k t u
        (Change-lem before after x y h k t u (cc) (cc) (omega arith)) in
    let here : c ≡ a = cc in
    let there : c ≡ b = cc in
    subst (λ v. Change (c ∷ before) after x y (a ∷ h) (v ∷ k) t u) there
      (subst (λ v. Change (c ∷ before) after x y (v ∷ h) (c ∷ k) t u) here below)

append_cancel : (gap after : List ℕ) (x y : ℕ) → gap ++ x ∷ after ≡ gap ++ y ∷ after → x ≡ y
append_cancel [] after x y e = cc
append_cancel (g ∷ gap) after x y e = append_cancel gap after x y (cc)

same_pair : (a b c d : ℕ) → a ≡ c → b ≡ d → a ∷ b ∷ [] ≡ c ∷ d ∷ []
same_pair a b c d p q = ap₂ (λ v w. v ∷ w ∷ []) p q

module _ (before after : List ℕ) (x y : ℕ) (ne : x ≢ y) (fits_x : x < 256) (fits_y : y < 256) where
  changed-Parts :
      (cmd cmd' : ℕ) (payload payload' : List ℕ)
      → Parts (before ++ x ∷ after) cmd payload
      → Parts (before ++ y ∷ after) cmd' payload'
      → ⊥
  unfolding Change
  changed-Parts cmd cmd' payload payload' p q =
      let h = header_and_payload cmd payload in
      let k = header_and_payload cmd' payload' in
      let sizes : length h ≡ length k = omega (
        arith,
        ap length p.frame_eq,
        ap length q.frame_eq,
        length-append before (x ∷ after),
        length-append before (y ∷ after),
        length-append payload (p.low ∷ p.high ∷ []),
        length-append payload' (q.low ∷ q.high ∷ []),
      ) in
      elim (Change-lem before after x y h k _ _ p.frame_eq q.frame_eq sizes) [
        | inl (same, (rest, hx, ky)) ↦
            let low : p.low ≡ q.low = cc in
            let high : p.high ≡ q.high = cc in
            crc16_detects_byte before rest x y fits_x fits_y ne (
              ap crc16_ccitt_false (sym hx)
              ∙ (p.checksum
                  ∙ (ap₂ (λ a b. a + b * 256) low high
                      ∙ (sym q.checksum ∙ ap crc16_ccitt_false ky))))
        | inr (same, (gap, tx, uy)) ↦
            let sums : p.low + p.high * 256 ≡ q.low + q.high * 256 =
              sym p.checksum ∙ (ap crc16_ccitt_false same ∙ q.checksum) in
            ne (
              append_cancel gap after x y (
                sym tx
                ∙ (same_pair p.low p.high q.low q.high
                      (omega (arith, sums, p.low_fits, q.low_fits, p.high_fits, q.high_fits))
                      (omega (arith, sums, p.low_fits, q.low_fits, p.high_fits, q.high_fits))
                    ∙ uy)))
      ]

-- A frame that `unpack_frame` accepts is refused once any one of its bytes, of the header, the
-- payload or the checksum, has been changed.
pub unpack_detects_byte :
    (before after : List ℕ) (x y : ℕ) (f : Frame)
    → IsBytes (before ++ x ∷ after)
    → y < 256
    → x ≢ y
    → unpack_frame (before ++ x ∷ after) ≡ some f
    → unpack_frame (before ++ y ∷ after) ≡ none
unpack_detects_byte before after x y f b fits ne e =
    let bytes = All-split IsByte before (x ∷ after) b in
    let changed : IsBytes (before ++ y ∷ after) =
      All-append IsByte before (y ∷ after) bytes.0 (fits, bytes.1.1) in
    elim (Option-cases (unpack_frame (before ++ y ∷ after))) [
      | inl refused ↦ refused
      | inr (g, accepted) ↦ absurd (
          changed-Parts before after x y ne bytes.1.0 fits f.cmd g.cmd f.payload g.payload
            (unpack→Parts (before ++ x ∷ after) f b e)
            (unpack→Parts (before ++ y ∷ after) g changed accepted))
    ]
