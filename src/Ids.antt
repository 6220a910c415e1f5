-- ===== src/Ids.antt =====
-- The identifiers that the managers make, fmt.Sprintf("lease-%08x", n) and the like, and the way
-- back that a restart takes, fmt.Sscanf(id, "lease-%x", &n). A scan reads the digits after the
-- prefix and stops at the first other byte; it fails where there is none. Spaces and signs before
-- the digits, which Sprintf never writes there, are not read, and numbers do not overflow.
use agent_runtime_harness.Prelude.{
  ℕ, zero, suc, ◌+◌, ◌-◌, ◌*◌, ◌/◌, ◌%◌, ◌<◌, ◌≡◌, refl, sym, ap, ◌∙◌, false, ◌&&◌, Option, none,
  some, [], ◌∷◌, ◌++◌, arith, ltb, leb, if◌then◌else◌, Text, text, length, has_prefix,
  has_prefix-append, trim_prefix, Bool-cases, inl, inr, ltb→lt,
}

-- The byte of a digit: 0-9, then a-f.
unfoldable pub digit : ℕ → ℕ
digit d = if ltb d 10 then d + 48 else d + 87

-- The value of a byte as a digit in a base up to 16.
unfoldable digit_value : ℕ → ℕ → Option ℕ
digit_value base c =
    let v : ℕ =
      (if leb 48 c && leb c 57
        then c - 48
        else if leb 97 c && leb c 102
        then c - 87
        else if leb 65 c && leb c 70
        then c - 55
        else 16) in
    if ltb v base then some v else none

-- The digits of n in front of acc; the fuel is at least the number of digits.
unfoldable pub digits : ℕ → ℕ → ℕ → Text → Text
unfolding digit
digits base zero n acc = acc
digits base (suc f) n acc =
    let rest = digits base f (n / base) (digit (n % base) ∷ acc) in
    if ltb n base then digit n ∷ acc else rest

unfoldable pub pad : ℕ → Text → Text
pad zero s = s
pad (suc w) s = 48 ∷ pad w s

-- %0<width>x for the base 16, %0<width>d for the base 10
unfoldable pub format : ℕ → ℕ → ℕ → Text
unfolding digits pad
format base width n = let ds = digits base (suc n) n [] in pad (width - length ds) ds

-- The number at the head of a text, after v.
unfoldable pub scan_digits : ℕ → ℕ → Text → ℕ
unfolding digit_value
scan_digits base v [] = v
scan_digits base v (c ∷ s) = elim (digit_value base c) [
  | none ↦ v
  | some d ↦ scan_digits base (v * base + d) s
]

-- A scan that fails leaves 0, as the callers do.
unfoldable pub scan : ℕ → Text → Text → ℕ
unfolding scan_digits
scan base prefix s = if has_prefix s prefix then scan_digits base 0 (trim_prefix s prefix) else 0

digit_value-digit_16 : (d : ℕ) → d < 16 → digit_value 16 (digit d) ≡ some d
unfolding digit_value digit
digit_value-digit_16 d h = ground arith

digit_value-digit_10 : (d : ℕ) → d < 10 → digit_value 10 (digit d) ≡ some d
unfolding digit_value digit
digit_value-digit_10 d h = ground arith

-- The two bases in use.
pub data IsBase : ℕ → Type 0 where
  ten : IsBase 10
  sixteen : IsBase 16

digit_value-digit :
    {base : ℕ} → IsBase base → (d : ℕ) → d < base → digit_value base (digit d) ≡ some d
digit_value-digit ten d h = digit_value-digit_10 d h
digit_value-digit sixteen d h = digit_value-digit_16 d h

scan_digits-cons :
    {base : ℕ} (b : IsBase base) (v d : ℕ) (s : Text)
    → d < base
    → scan_digits base v (digit d ∷ s) ≡ scan_digits base (v * base + d) s
unfolding scan_digits
scan_digits-cons b v d s h = rw (digit_value-digit b d h, scan_digits)

mod_div : {base : ℕ} → IsBase base → (n : ℕ) → (n / base) * base + n % base ≡ n
mod_div ten n = omega arith
mod_div sixteen n = omega arith

mod_below : {base : ℕ} → IsBase base → (n : ℕ) → n % base < base
mod_below ten n = omega arith
mod_below sixteen n = omega arith

div_below : {base : ℕ} → IsBase base → (n f : ℕ) → n < suc f → ltb n base ≡ false → n / base < f
div_below ten n f h e = ground arith
div_below sixteen n f h e = ground arith

-- Scanning the digits of n from 0 is scanning the rest from n.
scan_digits-digits :
    {base : ℕ} (b : IsBase base) (f n : ℕ) (acc : Text)
    → n < f
    → scan_digits base 0 (digits base f n acc) ≡ scan_digits base n acc
unfolding digits
scan_digits-digits b zero n acc h = elim h [ ]
scan_digits-digits {base} b (suc f) n acc h = elim (Bool-cases (ltb n base)) [
  | inl last ↦
      rw (last, digits)
        (scan_digits-cons b 0 n acc (ltb→lt n base last)
          ∙ ap (λ v. scan_digits base v acc) (omega arith))
  | inr more ↦
      rw (more, digits)
        (scan_digits-digits b f (n / base) _ (div_below b n f h more)
          ∙ scan_digits-cons b (n / base) (n % base) acc (mod_below b n)
          ∙ ap (λ v. scan_digits base v acc) (mod_div b n))
]

zero_below : {base : ℕ} → IsBase base → 0 < base
zero_below ten = omega arith
zero_below sixteen = omega arith

scan_digits-pad :
    {base : ℕ} (b : IsBase base) (w : ℕ) (s : Text)
    → scan_digits base 0 (pad w s) ≡ scan_digits base 0 s
unfolding pad digit
scan_digits-pad b zero s = refl
scan_digits-pad {base} b (suc w) s =
    scan_digits-cons b 0 0 (pad w s) (zero_below b)
    ∙ ap (λ v. scan_digits base v (pad w s)) (omega arith)
    ∙ scan_digits-pad b w s

trim_prefix-append : (p r : Text) → trim_prefix (p ++ r) p ≡ r
unfolding trim_prefix
trim_prefix-append [] [] = refl
trim_prefix-append [] (c ∷ r) = refl
trim_prefix-append (c ∷ p) r = ground (arith, trim_prefix-append p r, has_prefix-append p r)

-- A number is read back from the text that it was written to, whatever the prefix and the width.
pub scan-format :
    {base : ℕ} (b : IsBase base) (prefix : Text) (width n : ℕ)
    → scan base prefix (prefix ++ format base width n) ≡ n
unfolding scan format
scan-format {base} b prefix width n =
    rw
      (
        has_prefix-append prefix (format base width n),
        trim_prefix-append prefix (format base width n),
      )
      (scan_digits-pad b _ (digits base (suc n) n [])
        ∙ scan_digits-digits b (suc n) n [] (omega arith))

-- "lease-%08x"
unfoldable pub lease_id : ℕ → Text
unfolding format
lease_id n = text "lease-" ++ format 16 8 n

-- parseLeaseSeq
unfoldable pub parse_lease_seq : Text → ℕ
unfolding scan
parse_lease_seq id = scan 16 (text "lease-") id

-- "sess-%06d"
unfoldable pub session_id : ℕ → Text
unfolding format
session_id n = text "sess-" ++ format 10 6 n

-- parseSeq
unfoldable pub parse_session_seq : Text → ℕ
unfolding scan
parse_session_seq id = scan 10 (text "sess-") id

-- The scan of an id gives its number, also past the width of the padding.
pub parse_lease_seq-lease_id : (n : ℕ) → parse_lease_seq (lease_id n) ≡ n
unfolding parse_lease_seq lease_id
parse_lease_seq-lease_id n = scan-format sixteen (text "lease-") 8 n

pub parse_session_seq-session_id : (n : ℕ) → parse_session_seq (session_id n) ≡ n
unfolding parse_session_seq session_id
parse_session_seq-session_id n = scan-format ten (text "sess-") 6 n

-- So two numbers never share an id.
pub lease_id-injective : (m n : ℕ) → lease_id m ≡ lease_id n → m ≡ n
lease_id-injective m n e =
    sym (parse_lease_seq-lease_id m) ∙ ap parse_lease_seq e ∙ parse_lease_seq-lease_id n

pub session_id-injective : (m n : ℕ) → session_id m ≡ session_id n → m ≡ n
session_id-injective m n e =
    sym (parse_session_seq-session_id m) ∙ ap parse_session_seq e ∙ parse_session_seq-session_id n

lease_id_test : lease_id 255 ≡ text "lease-000000ff"
unfolding lease_id
lease_id_test = refl
