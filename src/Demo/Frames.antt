-- ===== src/Demo/Frames.antt =====
-- crates/demo/src/lib.rs, the frames that the hosts of an application exchange.
use jq_ble.Prelude.{
  ℕ, zero, suc, ◌+◌, ◌≤◌, ◌≡◌, refl, sym, ap, subst, ◌∙◌, not, false, ◌||◌, Option, none, some,
  List, [], ◌∷◌, ◌++◌, Bytes, ◌==◌, nat_eq, list_eq, list_beq_iff, if◌then◌else◌, take, drop,
  length, take-append-drop, take_append, drop_append, length-append, length-take, codes, ltb,
  Bool-cases, inl, inr, arith,
}
use jq_ble.Core.Endpoints.{NodeId}

abbrev pub application_frame_magic : Bytes
application_frame_magic = codes "JQBLEAPP"

pub record ApplicationFrame : Type 0 where
  pub from_node_id : NodeId
  pub destination_node_id : NodeId
  pub payload : Bytes

unfoldable pub encode_application_frame : NodeId → NodeId → Bytes → Bytes
encode_application_frame from_node_id destination_node_id payload =
    application_frame_magic ++ (from_node_id.bytes ++ (destination_node_id.bytes ++ payload))

abbrev decoded_frame : Bytes → ApplicationFrame
decoded_frame payload = record {
  from_node_id = record { bytes = take 32 (drop 8 payload) };
  destination_node_id = record { bytes = take 32 (drop 40 payload) };
  payload = drop 72 payload;
}

unfoldable pub decode_application_frame : Bytes → Option ApplicationFrame
decode_application_frame payload =
    if ltb (length payload) 72 || not (take 8 payload == application_frame_magic)
    then none
    else some (decoded_frame payload)

added : (m n : ℕ) → suc (m + n) ≡ suc m + n
added m n = omega arith

module _ {A : Type 0} where
  drop-nil : (n : ℕ) → drop {A = A} n [] ≡ []
  drop-nil zero = refl
  drop-nil (suc n) = refl

  drop-drop : (m n : ℕ) (xs : List A) → drop n (drop m xs) ≡ drop (m + n) xs
  drop-drop zero n xs = ap (λ k. drop k xs) (omega arith)
  drop-drop (suc m) n [] = drop-nil n ∙ sym (drop-nil (suc m + n))
  drop-drop (suc m) n (x ∷ xs) = drop-drop m n xs ∙ ap (λ k. drop k (x ∷ xs)) (added m n)

  length-drop : (m n : ℕ) (xs : List A) → m + n ≤ length xs → n ≤ length (drop m xs)
  length-drop zero n xs h = omega arith
  length-drop (suc m) n [] h = absurd (omega arith)
  length-drop (suc m) n (x ∷ xs) h = length-drop m n xs (omega arith)

  take_prefix : (n : ℕ) (xs ys : List A) → length xs ≡ n → take n (xs ++ ys) ≡ xs
  take_prefix n xs ys e = subst (λ n. take n (xs ++ ys) ≡ xs) e (take_append xs ys)

  drop_prefix : (n : ℕ) (xs ys : List A) → length xs ≡ n → drop n (xs ++ ys) ≡ ys
  drop_prefix n xs ys e = subst (λ n. drop n (xs ++ ys) ≡ ys) e (drop_append xs ys)

-- The identifier is a `[u8; 32]`.
abbrev pub HasNodeSize : NodeId → Type 0
HasNodeSize id = length id.bytes ≡ 32

-- What the bytes of a frame are.
abbrev pub Frames : Bytes → ApplicationFrame → Type 0
Frames bytes frame =
    (bytes ≡ encode_application_frame frame.from_node_id frame.destination_node_id frame.payload)
    × HasNodeSize frame.from_node_id
    × HasNodeSize frame.destination_node_id

parts :
    (bytes : Bytes)
    → bytes ≡ take 8 bytes ++ (take 32 (drop 8 bytes) ++ (take 32 (drop 40 bytes) ++ drop 72 bytes))
parts bytes =
    sym (take-append-drop 8 bytes)
    ∙ ap (λ rest. take 8 bytes ++ rest)
        (sym (take-append-drop 32 (drop 8 bytes))
          ∙ ap (λ rest. take 32 (drop 8 bytes) ++ rest)
              (drop-drop 8 32 bytes
                ∙ sym (take-append-drop 32 (drop 40 bytes))
                ∙ ap (λ rest. take 32 (drop 40 bytes) ++ rest) (drop-drop 40 32 bytes)))

pub decoded :
    (bytes : Bytes) (frame : ApplicationFrame)
    → decode_application_frame bytes ≡ some frame
    → Frames bytes frame
unfolding decode_application_frame encode_application_frame
decoded bytes frame e = elim (Bool-cases (ltb (length bytes) 72)) [
  | inl short ↦ cc (rw short at e)
  | inr long ↦ elim (Bool-cases (take 8 bytes == application_frame_magic)) [
    | inr plain ↦ cc (rw (long, plain) at e)
    | inl framed ↦
        let enough : 72 ≤ length bytes = ground (arith, long) in
        let is : decoded_frame bytes ≡ frame = cc (rw (long, framed) at e) in
        subst (Frames bytes) is (
          parts bytes
              ∙ ap
                  (λ magic.
                    magic ++ (take 32 (drop 8 bytes) ++ (take 32 (drop 40 bytes) ++ drop 72 bytes)))
                  ((list_beq_iff _ _).0 framed),
          length-take 32 (drop 8 bytes) (length-drop 8 32 bytes (omega arith)),
          length-take 32 (drop 40 bytes) (length-drop 40 32 bytes (omega arith)),
        )
  ]
]

pub encoded :
    (bytes : Bytes) (frame : ApplicationFrame)
    → Frames bytes frame
    → decode_application_frame bytes ≡ some frame
unfolding decode_application_frame encode_application_frame
encoded bytes frame (e, source, destination) =
    let f = frame.from_node_id.bytes in
    let d = frame.destination_node_id.bytes in
    let p = frame.payload in
    let size = length-append f (d ++ p) in
    let rest = length-append d p in
    let long : ltb (length (application_frame_magic ++ (f ++ (d ++ p)))) 72 ≡ false =
      ground (arith, size, rest, source, destination) in
    let first = take_prefix 32 f (d ++ p) source in
    let second = drop_prefix 32 f (d ++ p) source in
    let third = take_prefix 32 d p destination in
    let last =
      sym (drop-drop 32 32 (f ++ (d ++ p)))
      ∙ ap (drop 32) second
      ∙ drop_prefix 32 d p destination in
    rw (e, long, first, second, third, last) refl
