-- ===== src/Xatum/Packets.antt =====
-- xatum/base64.go and xatum/packet.go: the packets of Xatum as text, and the lines that
-- xatum/client/client.go reads.
use xelis_pool.Common.{
  if-true, if-false, ℕ, ◌+◌, ◌*◌, ◌-◌, ◌/◌, ◌≡◌, ◌∙◌, refl, ap, Bool, true, false, ◌&&◌, Option,
  none, some, [], ◌∷◌, ◌++◌, length, take, drop, take_prefix, length-append, All, arith, ltb, ◌==◌,
  if◌then◌else◌,
}
use xelis_pool.Common.Bytes.{Bytes, codes, ◌=?◌, =?_refl}
use xelis_pool.Common.Text.{split_first}
use xelis_pool.Slave.Jobs.{XatumJob}
use xelis_pool.Slave.Packet.Accepted.{split_first-append}

-- `base64.StdEncoding`: the decoder gives what it could read, and whether that is all.
pub record Base64 : Type 0 where
  pub encode : Bytes → Bytes
  pub decode : Bytes → Bytes × Bool
  pub length_encode : (m : Bytes) → length (encode m) ≡ 4 * ((length m + 2) / 3)
  pub decode_encode : (m : Bytes) → decode (encode m) ≡ (m, true)

module _ (base64 : Base64) where
  open base64 use {encode, decode, length_encode, decode_encode}

  -- `B64.Marshal`: in double quotes.
  unfoldable pub marshal : Bytes → Bytes
  marshal m = 34 ∷ (encode m ++ (34 ∷ []))

  -- `B64.UnmarshalJSON`; `none` is an error.
  unfoldable pub unmarshal_json : Bytes → Option Bytes
  unmarshal_json c =
      let (m, ok) = decode (take (length c - 2) (drop 1 c)) in
      if ltb (length c) 2
      then none
      else if length c == 2
      then some []
      else if take 1 c =? (34 ∷ []) && drop (length c - 1) c =? (34 ∷ [])
      then (if ok then some m else none)
      else none

  drop-end : (xs : Bytes) (x : ℕ) → drop (length xs) (xs ++ (x ∷ [])) ≡ x ∷ []
  drop-end [] x = refl
  drop-end (y ∷ xs) x = drop-end xs x

  marshalled_size : (m : Bytes) → length (marshal m) ≡ 4 * ((length m + 2) / 3) + 2
  unfolding marshal
  marshalled_size m = omega (arith, length-append (encode m) (34 ∷ []), length_encode m)

  last_quote : (m : Bytes) → drop (length (marshal m) - 1) (marshal m) ≡ 34 ∷ []
  unfolding marshal
  last_quote m =
      let size : length (34 ∷ (encode m ++ (34 ∷ []))) - 1 ≡ length (34 ∷ encode m) =
        omega (arith, length-append (encode m) (34 ∷ [])) in
      ap (λ i. drop i (34 ∷ (encode m ++ (34 ∷ [])))) size ∙ drop-end (34 ∷ encode m) 34

  inner : (m : Bytes) → take (length (marshal m) - 2) (drop 1 (marshal m)) ≡ encode m
  unfolding marshal
  inner m =
      take_prefix (length (34 ∷ (encode m ++ (34 ∷ []))) - 2) (encode m) (34 ∷ [])
        (omega (arith, length-append (encode m) (34 ∷ [])))

  -- Bytes that were marshalled are read back.
  pub unmarshal_json-marshal : (m : Bytes) → unmarshal_json (marshal m) ≡ some m
  unfolding unmarshal_json marshal ◌=?◌
  unmarshal_json-marshal [] =
      let size = marshalled_size [] in
      let long : ltb (length (marshal [])) 2 ≡ false = ground (arith, size) in
      let empty : (length (marshal []) == 2) ≡ true = ground (arith, size) in
      if-false _ _ long ∙ if-true _ _ empty
  unmarshal_json-marshal (x ∷ m) =
      let bs = x ∷ m in
      let size = marshalled_size bs in
      let long : ltb (length (marshal bs)) 2 ≡ false = ground (arith, size) in
      let longer : (length (marshal bs) == 2) ≡ false = ground (arith, size) in
      let quote : (drop (length (marshal bs) - 1) (marshal bs) =? (34 ∷ [])) ≡ true =
        ap (λ l. l =? (34 ∷ [])) (last_quote bs) ∙ =?_refl (34 ∷ []) in
      if-false _ _ long
      ∙ if-false _ _ longer
      ∙ if-true _ _ quote
      ∙ ap (λ r. if r.1 then some r.0 else none) (ap decode (inner bs) ∙ decode_encode bs)

-- `Packet.ToString` and `NewPacketFromString`, with JSON as the text behind the `~`; `none` is an error.
unfoldable pub to_string : Bytes → Option Bytes → Option Bytes
to_string name none = none
to_string name (some text) = some (name ++ (126 ∷ text))

unfoldable pub new_packet_from_string {ℓ} :
    {D : Type ℓ} → (Bytes → Option D) → Bytes → Option (Bytes × D)
unfolding split_first
new_packet_from_string parse text = elim (split_first 126 text) [
  | none ↦ none
  | some (name, body) ↦ elim (parse body) [ none ↦ none | some d ↦ some (name, d) ]
]

-- A packet whose name has no `~` is read back, as far as its data are.
pub new_packet_from_string-to_string {ℓ} :
    {D : Type ℓ} (parse : Bytes → Option D) (name text : Bytes) (d : D)
    → All (λ c. (c == 126) ≡ false) name
    → parse text ≡ some d
    → (line : Bytes) × (to_string name (some text) ≡ some line)
      × (new_packet_from_string parse line ≡ some (name, d))
unfolding to_string new_packet_from_string
new_packet_from_string-to_string parse name text d h e = (
  name ++ (126 ∷ text),
  refl,
  rw (split_first-append 126 name text h, new_packet_from_string) (rw e refl),
)

-- What the client does with a line: it is skipped, ends the connection, is a job for the miner, is
-- logged at a level, or is answered. A print of a level other than 1, 2 and 3 is `skipped` too.
pub data Action : Type 0 where
  skipped closed pong unknown : Action
  new_job : XatumJob → Action
  logged : ℕ → Action

-- The JSON decoder of the standard library for a job and for the level of a print.
pub record ClientJson : Type 0 where
  pub job : Bytes → Option XatumJob
  pub level : Bytes → Option ℕ

-- The switch on the level of a print.
unfoldable pub logged_at : ℕ → Action
logged_at n = if ltb 0 n && ltb n 4 then logged n else skipped

unfoldable pub on_line : ClientJson → Bytes → Action
unfolding split_first logged_at
on_line json line = elim (split_first 126 line) [
  | none ↦ skipped
  | some (pack, body) ↦
      let read_job : Action = elim (json.job body) [ none ↦ closed | some j ↦ new_job j ] in
      let read_print : Action = elim (json.level body) [ none ↦ closed | some n ↦ logged_at n ] in
      if pack =? codes "job"
      then read_job
      else if pack =? codes "print"
      then read_print
      else if pack =? codes "ping"
      then pong
      else unknown
]
