-- ===== src/Pow/BlockMiner/Blob.antt =====
-- The blob that is sent to miners, and the block that is built from one.
use xelis_pool.Common.{
  ℕ, ◌≡◌, ◌∙◌, ap, some, ◌++◌, length, take, drop, arith, ==_iff, length-append, append_assoc,
  ge→ltb, take_prefix, drop_prefix, drop-drop, take_all, length-take, length-drop,
}
use xelis_pool.Common.Bytes.{Bytes, IsU64, be_bytes, be_value, length-be_bytes, be_value-be_bytes}
use xelis_pool.Pow.BlockMiner.{
  BigEndianWriter, new_block_miner, new_block_miner_from_blob, get_workhash, get_timestamp,
  get_nonce, get_extra_nonce, get_publickey, get_blob,
}
use xelis_pool.Pow.BlockMiner.Fields.{IsBlock}

module _ (now : ℕ) (wh xn pk : Bytes) where
  abbrev layout : Bytes
  layout = wh ++ (be_bytes 8 now ++ (be_bytes 8 0 ++ (xn ++ pk)))

  module _ (hw : length wh ≡ 32) (hx : length xn ≡ 32) (hp : length pk ≡ 32) where
    layout-IsBlock : IsBlock layout
    layout-IsBlock = omega (
      arith,
      length-append wh (be_bytes 8 now ++ (be_bytes 8 0 ++ (xn ++ pk))),
      length-append (be_bytes 8 now) (be_bytes 8 0 ++ (xn ++ pk)),
      length-append (be_bytes 8 0) (xn ++ pk),
      length-append xn pk,
      length-be_bytes 8 now,
      length-be_bytes 8 0,
    )

    -- What stands behind each field.
    drop_32 : drop 32 layout ≡ be_bytes 8 now ++ (be_bytes 8 0 ++ (xn ++ pk))
    drop_32 = drop_prefix 32 wh _ hw

    drop_40 : drop 40 layout ≡ be_bytes 8 0 ++ (xn ++ pk)
    drop_40 =
        drop-drop 8 32 layout
        ∙ ap (drop 8) drop_32
        ∙ drop_prefix 8 (be_bytes 8 now) _ (length-be_bytes 8 now)

    drop_48 : drop 48 layout ≡ xn ++ pk
    drop_48 =
        drop-drop 8 40 layout
        ∙ ap (drop 8) drop_40
        ∙ drop_prefix 8 (be_bytes 8 0) _ (length-be_bytes 8 0)

    drop_80 : drop 80 layout ≡ pk
    drop_80 = drop-drop 32 48 layout ∙ ap (drop 32) drop_48 ∙ drop_prefix 32 xn _ hx

    layout_fields :
        IsU64 now
        → (get_workhash layout ≡ wh)
          × (get_timestamp layout ≡ now)
          × (get_nonce layout ≡ 0)
          × (get_extra_nonce layout ≡ xn)
          × (get_publickey layout ≡ pk)
    unfolding get_workhash get_timestamp get_nonce get_extra_nonce get_publickey
    layout_fields hn = (
      take_prefix 32 wh _ hw,
      ap be_value (ap (take 8) drop_32 ∙ take_prefix 8 (be_bytes 8 now) _ (length-be_bytes 8 now))
          ∙ be_value-be_bytes 8 now hn,
      ap be_value (ap (take 8) drop_40 ∙ take_prefix 8 (be_bytes 8 0) _ (length-be_bytes 8 0))
          ∙ be_value-be_bytes 8 0 (omega arith),
      ap (take 32) drop_48 ∙ take_prefix 32 xn _ hx,
      ap (take 32) drop_80 ∙ take_all pk 32 hp,
    )

length_workhash : (b : Bytes) → IsBlock b → length (get_workhash b) ≡ 32
unfolding get_workhash
length_workhash b h = omega (arith, length-take 32 b)

length_extra_nonce : (b : Bytes) → IsBlock b → length (get_extra_nonce b) ≡ 32
unfolding get_extra_nonce
length_extra_nonce b h = omega (arith, length-take 32 (drop 48 b), length-drop 48 b)

length_publickey : (b : Bytes) → IsBlock b → length (get_publickey b) ≡ 32
unfolding get_publickey
length_publickey b h = omega (arith, length-take 32 (drop 80 b), length-drop 80 b)

module _ (writer : BigEndianWriter) (now : ℕ) where
  open writer use {fresh, add_fixed_byte_array, add_uint64, written}
  open writer use {written_fresh, written_array, written_uint64}

  new_block_miner-layout :
      (wh xn pk : Bytes)
      → length wh ≡ 32
      → length xn ≡ 32
      → length pk ≡ 32
      → new_block_miner writer now wh xn pk ≡ some (layout now wh xn pk)
  unfolding new_block_miner
  new_block_miner-layout wh xn pk hw hx hp =
      let s0 = add_fixed_byte_array wh 32 fresh in
      let s1 = add_uint64 0 (add_uint64 now s0) in
      let s2 = add_fixed_byte_array xn 32 s1 in
      let all : written (add_fixed_byte_array pk 32 s2) ≡ layout now wh xn pk =
        rw
          (
            written_array pk 32 s2 hp,
            written_array xn 32 s1 hx,
            written_uint64 0 (add_uint64 now s0),
            written_uint64 now s0,
            written_array wh 32 fresh hw,
            written_fresh,
          )
          (simp append_assoc) in
      let size = layout-IsBlock now wh xn pk hw hx hp in
      rw all (
        rw (
          ge→ltb (length (layout now wh xn pk)) 112 (omega arith),
          take_all (layout now wh xn pk) 112 size,
        ))

  run :
      (wh xn pk : Bytes)
      → length wh ≡ 32
      → length xn ≡ 32
      → length pk ≡ 32
      → new_block_miner_from_blob writer now ((wh ++ xn) ++ pk) ≡ some (some (layout now wh xn pk))
  unfolding new_block_miner_from_blob
  run wh xn pk hw hx hp =
      let whole : length (wh ++ (xn ++ pk)) ≡ 96 =
        omega (arith, length-append wh (xn ++ pk), length-append xn pk) in
      let tail = drop_prefix 32 wh (xn ++ pk) hw in
      let last : drop 64 (wh ++ (xn ++ pk)) ≡ pk =
        drop-drop 32 32 (wh ++ (xn ++ pk)) ∙ ap (drop 32) tail ∙ drop_prefix 32 xn pk hx in
      rw (append_assoc wh xn pk, (==_iff _ 96).1 whole)
        (rw
          (take_prefix 32 wh (xn ++ pk) hw, tail, take_prefix 32 xn pk hx, last, take_all pk 32 hp)
          (rw (new_block_miner-layout wh xn pk hw hx hp)))

  -- For a block of 112 bytes and a uint64 time: the block built from its blob has 112 bytes, its
  -- work hash, extra nonce and public key, the current time and the nonce 0.
  pub new_block_miner_from_blob-get_blob :
      (b : Bytes)
      → IsU64 now
      → IsBlock b
      → (b' : Bytes) × (new_block_miner_from_blob writer now (get_blob b) ≡ some (some b'))
        × IsBlock b'
        × (get_workhash b' ≡ get_workhash b)
        × (get_timestamp b' ≡ now)
        × (get_nonce b' ≡ 0)
        × (get_extra_nonce b' ≡ get_extra_nonce b)
        × (get_publickey b' ≡ get_publickey b)
  unfolding new_block_miner_from_blob get_blob
  new_block_miner_from_blob-get_blob b hn hb =
      let wh = get_workhash b in
      let xn = get_extra_nonce b in
      let pk = get_publickey b in
      let hw : length wh ≡ 32 = length_workhash b hb in
      let hx : length xn ≡ 32 = length_extra_nonce b hb in
      let hp : length pk ≡ 32 = length_publickey b hb in
      let (f1, f2, f3, f4, f5) = layout_fields now wh xn pk hw hx hp hn in
      (
        layout now wh xn pk,
        run wh xn pk hw hx hp,
        layout-IsBlock now wh xn pk hw hx hp,
        f1,
        f2,
        f3,
        f4,
        f5,
      )
