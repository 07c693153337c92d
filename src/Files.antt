-- ===== src/Files.antt =====
-- The list of files of patch/FileList.cpp: Serialize and Deserialize. Of a FileListNode the model has
-- what goes over the wire, with fullPathToFile and, as `content`, data; a null pointer is none. RakNet's BitStream
-- and StringCompressor, which are not in the repository, are the parameter `BitStream`. A failed
-- assertion is a no-op, as in a release build.
pub mod RoundTrip
use raknet_proxy.Base.{
  ℕ, zero, suc, ◌≡◌, ◌<◌, ◌^◌, Bool, true, false, not, ◌||◌, List, [], ◌∷◌, ◌++◌, Option, none,
  some, ◌==◌, if◌then◌else◌, ltb, length, take,
}

-- FileListNode, with its context's op, flnc_extraData1 and flnc_extraData2.
pub record Node : Type 0 where
  pub filename : List ℕ
  pub full_path : List ℕ
  pub content : Option (List ℕ)
  pub data_length : ℕ
  pub file_length : ℕ
  pub op : ℕ
  pub extra1 : ℕ
  pub extra2 : ℕ

-- A BitStream: what WriteCompressed (of a type of some bits), Write and EncodeString append, and
-- the reads, which are given what the variable holds before, and give whether they succeed, what it
-- holds afterwards and the rest of the stream. The laws say that a read gives back what was
-- written.
pub record BitStream : Type 1 where
  pub S : Type 0
  pub nothing : S
  pub append : S → S → S
  pub append-assoc : (a b c : S) → append (append a b) c ≡ append a (append b c)
  pub compressed : ℕ → ℕ → S
  pub bit : Bool → S
  pub bytes : List ℕ → S
  pub string : List ℕ → S
  pub read_compressed : ℕ → ℕ → S → Bool × ℕ × S
  pub read_bit : Bool → S → Bool × Bool × S
  pub read_bytes : ℕ → S → List ℕ × S
  pub read_string : List ℕ → S → List ℕ × S
  pub read_compressed-append :
      (w v old : ℕ) (s : S)
      → v < 2 ^ w
      → read_compressed w old (append (compressed w v) s) ≡ (true, v, s)
  pub read_bit-append : (b old : Bool) (s : S) → read_bit old (append (bit b) s) ≡ (true, b, s)
  pub read_bytes-append : (d : List ℕ) (s : S) → read_bytes (length d) (append (bytes d) s) ≡ (d, s)
  pub read_string-append :
      (t old : List ℕ) (s : S) → length t < 512 → read_string old (append (string t) s) ≡ (t, s)

-- The variables of Deserialize that keep their values from one round of its loop to the next.
pub record Variables : Type 0 where
  pub n : Node
  pub non_zero : Bool
  pub matches_length : Bool

module _ (b : BitStream) where
  open b use {S, nothing, append, compressed, bit, bytes, string}

  -- The data's length and the data, if there are any; none is a write from a null pointer.
  unfoldable pub data_bits : Node → Option S
  data_bits n =
      if ltb 0 n.data_length
      then elim n.content [
        | none ↦ none
        | some d ↦ some (
            append (bit true) (append (compressed 32 n.data_length) (bytes (take n.data_length d))))
      ]
      else some (bit false)

  -- Whether the file's length is the data's, and if not the file's length.
  unfoldable pub length_bits : Node → S
  length_bits n =
      if n.file_length == n.data_length
      then bit true
      else append (bit false) (compressed 32 n.file_length)

  -- One round of the loop of Serialize.
  unfoldable pub node_bits : Node → Option S
  node_bits n = elim (data_bits n) [
    | none ↦ none
    | some d ↦ some (
        append (compressed 8 n.op) (
          append (compressed 32 n.extra1) (
            append (compressed 32 n.extra2)
              (append (string n.filename) (append d (length_bits n))))))
  ]

  unfoldable pub nodes_bits : List Node → Option S
  nodes_bits [] = some nothing
  nodes_bits (n ∷ ns) = elim (node_bits n) [
    | none ↦ none
    | some x ↦ elim (nodes_bits ns) [ none ↦ none | some y ↦ some (append x y) ]
  ]

  -- Serialize
  unfoldable pub serialize : List Node → Option S
  serialize ns = elim (nodes_bits ns) [
    | none ↦ none
    | some x ↦ some (append (compressed 32 (length ns)) x)
  ]

  -- The loop of Deserialize, from its head to the file name.
  unfoldable pub read_head : Variables → S → Variables × S
  read_head v s =
      let (ok1, op, s1) = b.read_compressed 8 v.n.op s in
      let (ok2, extra1, s2) = b.read_compressed 32 v.n.extra1 s1 in
      let (ok3, extra2, s3) = b.read_compressed 32 v.n.extra2 s2 in
      let (name, s4) = b.read_string v.n.filename s3 in
      (
        record v {
          n = record v.n {
            op = op;
            extra1 = extra1;
            extra2 = extra2;
            filename = name;
            full_path = name;
          };
        },
        s4,
      )

  -- The data; none is a length above 2000000000.
  unfoldable pub read_some_data : Variables → Bool × ℕ × S → Option (Variables × S)
  read_some_data v (ok, count, s) =
      if ltb 2000000000 count
      then none
      else (let (d, rest) = b.read_bytes count s in
          some (
            record v { n = record v.n { content = some d; data_length = count }; non_zero = true },
            rest,
          ))

  unfoldable pub read_data : Variables → S → Option (Variables × S)
  read_data v s =
      let (ok, non_zero, s1) = b.read_bit v.non_zero s in
      if non_zero
      then read_some_data v (b.read_compressed 32 v.n.data_length s1)
      else some
          (record v { n = record v.n { content = none; data_length = 0 }; non_zero = false }, s1)

  -- The file's length, and whether the last read succeeded.
  unfoldable pub read_length : Variables → S → Bool × Variables × S
  read_length v s =
      let (ok1, same, s1) = b.read_bit v.matches_length s in
      let (ok2, count, s2) = b.read_compressed 32 v.n.file_length s1 in
      if same
      then (
        ok1,
        record v { n = record v.n { file_length = v.n.data_length }; matches_length = true },
        s1,
      )
      else (ok2, record v { n = record v.n { file_length = count }; matches_length = false }, s2)

  -- The loop with the list so far, and what Deserialize returns: false, with an empty list if the
  -- last read of a round fails, and with the list so far if a length is too large.
  unfoldable pub deserialize_loop : ℕ → Variables → S → List Node → Bool × List Node
  deserialize_loop zero v s list = (true, list)
  deserialize_loop (suc k) v s list =
      let (v1, s1) = read_head v s in
      elim (read_data v1 s1) [
        | none ↦ (false, list)
        | some (v2, s2) ↦
            let (ok, v3, s3) = read_length v2 s2 in
            let rest = deserialize_loop k v3 s3 (list ++ v3.n ∷ []) in
            if ok then rest else (false, [])
      ]

  -- Deserialize; `fresh` is what its variables hold before they are set, and `old` the list before.
  unfoldable pub deserialize : Variables → S → List Node → Bool × List Node
  deserialize fresh s old =
      let (ok, count, rest) = b.read_compressed 32 0 s in
      if not ok || ltb 10000 count then (false, old) else deserialize_loop count fresh rest []
