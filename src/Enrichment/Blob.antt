-- ===== src/Enrichment/Blob.antt =====
-- internal/enrichment/pipeline.go, float32sToBlob and BlobToFloat32s: the vectors as they are stored. A
-- float32 is its 32 bits, which Float32bits and Float32frombits pass on.
use imap_mcp.Prelude.{
  ℕ, zero, suc, ◌+◌, ◌*◌, ◌/◌, ◌%◌, ◌^◌, ◌<◌, ◌≡◌, refl, ap, ◌∙◌, List, [], ◌∷◌, ◌++◌, length, drop,
  All, arith,
}

-- binary.LittleEndian.PutUint32
unfoldable pub put_uint32 : ℕ → List ℕ
put_uint32 v = v % 256 ∷ v / 256 % 256 ∷ v / 65536 % 256 ∷ v / 16777216 % 256 ∷ []

-- binary.LittleEndian.Uint32, on the first four bytes
unfoldable pub uint32 : List ℕ → ℕ
uint32 (a ∷ b ∷ c ∷ d ∷ rest) = a + 256 * b + 65536 * c + 16777216 * d
uint32 _ = 0

unfoldable pub float32s_to_blob : List ℕ → List ℕ
unfolding put_uint32
float32s_to_blob [] = []
float32s_to_blob (v ∷ vs) = put_uint32 v ++ float32s_to_blob vs

-- for i := range vs, from the bytes at 4 * i on
unfoldable pub read_floats : ℕ → List ℕ → List ℕ
unfolding uint32
read_floats zero b = []
read_floats (suc n) b = uint32 b ∷ read_floats n (drop 4 b)

unfoldable pub blob_to_float32s : List ℕ → List ℕ
unfolding read_floats
blob_to_float32s b = read_floats (length b / 4) b

abbrev pub IsWord : ℕ → Type 0
IsWord v = v < 2 ^ 32

abbrev pub IsByte : ℕ → Type 0
IsByte v = v < 256

length-blob : (vs : List ℕ) → length (float32s_to_blob vs) ≡ 4 * length vs
unfolding float32s_to_blob
length-blob [] = refl
length-blob (v ∷ vs) = omega (arith, length-blob vs)

read-blob : (vs : List ℕ) → All IsWord vs → read_floats (length vs) (float32s_to_blob vs) ≡ vs
unfolding read_floats float32s_to_blob
read-blob [] h = refl
read-blob (v ∷ vs) h =
    let e : v % 256
          + 256 * (v / 256 % 256)
          + 65536 * (v / 65536 % 256)
          + 16777216 * (v / 16777216 % 256)
        ≡ v =
      let small : v < 2 ^ 32 = h.0 in omega arith in
    rw e (ap (λ r. v ∷ r) (read-blob vs h.1))

-- A vector read back from its blob is the vector that was stored, bit for bit.
pub blob-decodes : (vs : List ℕ) → All IsWord vs → blob_to_float32s (float32s_to_blob vs) ≡ vs
unfolding blob_to_float32s
blob-decodes vs h =
    let e : length (float32s_to_blob vs) / 4 ≡ length vs = omega (arith, length-blob vs) in
    rw e (read-blob vs h)

put-uint32 :
    (x y z w : ℕ)
    → IsByte x
    → IsByte y
    → IsByte z
    → IsByte w
    → put_uint32 (x + 256 * y + 65536 * z + 16777216 * w) ≡ x ∷ y ∷ z ∷ w ∷ []
unfolding put_uint32
put-uint32 x y z w hx hy hz hw =
    let v : ℕ = x + 256 * y + 65536 * z + 16777216 * w in
    let e : v % 256 ≡ x = omega arith in
    let f : v / 256 % 256 ≡ y = omega arith in
    let g : v / 65536 % 256 ≡ z = omega arith in
    let h : v / 16777216 % 256 ≡ w = omega arith in rw (e, f, g, h) refl

encode-read :
    (n : ℕ) (b : List ℕ) → length b ≡ 4 * n → All IsByte b → float32s_to_blob (read_floats n b) ≡ b
unfolding read_floats float32s_to_blob uint32 put_uint32
encode-read zero [] e h = refl
encode-read zero (x ∷ b) e h = absurd (omega arith)
encode-read (suc n) [] e h = absurd (omega arith)
encode-read (suc n) (x ∷ []) e h = absurd (omega arith)
encode-read (suc n) (x ∷ y ∷ []) e h = absurd (omega arith)
encode-read (suc n) (x ∷ y ∷ z ∷ []) e h = absurd (omega arith)
encode-read (suc n) (x ∷ y ∷ z ∷ w ∷ b) e h =
    ap (λ p. p ++ float32s_to_blob (read_floats n b))
      (put-uint32 x y z w h.0 h.1.0 h.1.1.0 h.1.1.1.0)
    ∙ ap (λ r. x ∷ y ∷ z ∷ w ∷ r) (encode-read n b (omega arith) h.1.1.1.1)

-- Every blob of whole words is the blob of the vector that is read from it.
pub blob-encodes :
    (n : ℕ) (b : List ℕ)
    → length b ≡ 4 * n
    → All IsByte b
    → float32s_to_blob (blob_to_float32s b) ≡ b
unfolding blob_to_float32s
blob-encodes n b e h = let k : length b / 4 ≡ n = omega arith in rw k (encode-read n b e h)
