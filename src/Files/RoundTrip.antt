-- ===== src/Files/RoundTrip.antt =====
-- Deserialize of patch/FileList.cpp reads back what Serialize writes.
use raknet_proxy.Base.{
  ℕ, suc, ◌≡◌, refl, sym, ◌∙◌, ap, ◌<◌, ◌≤◌, ◌^◌, true, false, List, [], ◌∷◌, ◌++◌, map, none, some,
  ◌==◌, if◌then◌else◌, ltb, length, take, take-length, All, Bool-cases, inl, inr, arith,
}
use raknet_proxy.Files.{
  Node, BitStream, Variables, data_bits, length_bits, node_bits, nodes_bits, serialize, read_head,
  read_some_data, read_data, read_length, deserialize_loop, deserialize,
}

-- A node that fits the format, and has as much data as it says.
pub record IsSendable (n : Node) : Type 0 where
  pub op : n.op < 2 ^ 8
  pub extra1 : n.extra1 < 2 ^ 32
  pub extra2 : n.extra2 < 2 ^ 32
  pub filename : length n.filename < 512
  pub data_length : n.data_length ≤ 2000000000
  pub content :
      ltb 0 n.data_length ≡ true → (d : List ℕ) × (n.content ≡ some d) × (length d ≡ n.data_length)
  pub file_length : n.file_length < 2 ^ 32

-- What arrives of a node: the full path becomes the file name, and an empty file has no data.
abbrev pub received : Node → Node
received n = record n {
  full_path = n.filename;
  content = if ltb 0 n.data_length then n.content else none;
}

module _ (b : BitStream) where
  open b use {S, append, compressed, bit, bytes, string}

  read_head-append :
      (n : Node) (v : Variables) (s : S)
      → IsSendable n
      → read_head b v (
          append (compressed 8 n.op) (
            append
              (compressed 32 n.extra1)
              (append (compressed 32 n.extra2) (append (string n.filename) s))))
        ≡ (
          record v {
            n = record v.n {
              op = n.op;
              extra1 = n.extra1;
              extra2 = n.extra2;
              filename = n.filename;
              full_path = n.filename;
            };
          },
          s,
        )
  unfolding read_head
  read_head-append n v s h =
      rw
        (
          b.read_compressed-append 8 n.op v.n.op
              (append (compressed 32 n.extra1)
                (append (compressed 32 n.extra2) (append (string n.filename) s)))
              h.op,
          b.read_compressed-append 32 n.extra1 v.n.extra1
              (append (compressed 32 n.extra2) (append (string n.filename) s)) h.extra1,
          b.read_compressed-append 32 n.extra2 v.n.extra2 (append (string n.filename) s) h.extra2,
          b.read_string-append n.filename v.n.filename s h.filename,
        )
        refl

  read_length-append :
      (n : Node) (v : Variables) (s : S)
      → IsSendable n
      → v.n.data_length ≡ n.data_length
      → read_length b v (append (length_bits b n) s) ≡ (
        true,
        record v {
          n = record v.n { file_length = n.file_length };
          matches_length = n.file_length == n.data_length;
        },
        s,
      )
  unfolding read_length length_bits
  read_length-append n v s h e = elim (Bool-cases (n.file_length == n.data_length)) [
    | inl same ↦
        let lengths : n.file_length ≡ v.n.data_length = ground arith in
        rw same (rw (b.read_bit-append true v.matches_length s) (rw lengths refl))
    | inr other ↦ rw other (
        rw
          (
            b.append-assoc (bit false) (compressed 32 n.file_length) s,
            b.read_bit-append false v.matches_length (append (compressed 32 n.file_length) s),
            b.read_compressed-append 32 n.file_length v.n.file_length s h.file_length,
          )
          refl)
  ]

  read_data-append :
      (n : Node) (v : Variables) (s : S)
      → IsSendable n
      → (d : S) × (data_bits b n ≡ some d)
        × (read_data b v (append d s)
            ≡ some (
              record v {
                n = record v.n { content = (received n).content; data_length = n.data_length };
                non_zero = ltb 0 n.data_length;
              },
              s,
            ))
  unfolding read_data data_bits read_some_data
  read_data-append n v s h = elim (Bool-cases (ltb 0 n.data_length)) [
    | inl some_data ↦
        let (d, there, long) = h.content some_data in
        let small : ltb 2000000000 n.data_length ≡ false = ground (arith, h.data_length) in
        let took : take n.data_length d ≡ d = ap (λ k. take k d) (sym long) ∙ take-length d in
        let fits : n.data_length < 4294967296 = omega (arith, h.data_length) in
        let read : b.read_bytes n.data_length (append (bytes d) s) ≡ (d, s) =
          ap (λ k. b.read_bytes k (append (bytes d) s)) (sym long) ∙ b.read_bytes-append d s in
        let head = append (compressed 32 n.data_length) (bytes d) in
        (
          append (bit true) head,
          rw (some_data, there) (rw took refl),
          rw some_data (
              rw
                (
                  b.append-assoc (bit true) head s,
                  b.append-assoc (compressed 32 n.data_length) (bytes d) s,
                )
                (rw
                  (b.read_bit-append true v.non_zero
                    (append (compressed 32 n.data_length) (append (bytes d) s)))
                  (rw
                    (b.read_compressed-append 32 n.data_length v.n.data_length (append (bytes d) s)
                      fits)
                    (rw (small, read) (rw there refl))))),
        )
    | inr no_data ↦
        let empty : n.data_length ≡ 0 = ground (arith, no_data) in
        (
          bit false,
          rw no_data refl,
          rw no_data (rw (b.read_bit-append false v.non_zero s) (rw empty refl)),
        )
  ]

-- The variables of Deserialize after a round.
abbrev after : Node → Variables → Variables
after n v = record v {
  n = received n;
  non_zero = ltb 0 n.data_length;
  matches_length = n.file_length == n.data_length;
}

append-nil : (xs : List Node) → xs ++ [] ≡ xs
append-nil [] = refl
append-nil (x ∷ xs) = ap (λ ys. x ∷ ys) (append-nil xs)

append-next : (xs : List Node) (y : Node) (ys : List Node) → (xs ++ y ∷ []) ++ ys ≡ xs ++ y ∷ ys
append-next [] y ys = refl
append-next (x ∷ xs) y ys = ap (λ zs. x ∷ zs) (append-next xs y ys)

module _ (b : BitStream) where
  open b use {S, append, compressed, bit, bytes, string}

  node_bits-deserialize_loop :
      (n : Node) (k : ℕ) (v : Variables) (s : S) (list : List Node)
      → IsSendable n
      → (x : S) × (node_bits b n ≡ some x)
        × (deserialize_loop b (suc k) v (append x s) list
            ≡ deserialize_loop b k (after n v) s (list ++ received n ∷ []))
  unfolding deserialize_loop node_bits
  node_bits-deserialize_loop n k v s list h =
      let rest = append (length_bits b n) s in
      let v1 : Variables = record v {
        n = record v.n {
          op = n.op;
          extra1 = n.extra1;
          extra2 = n.extra2;
          filename = n.filename;
          full_path = n.filename;
        };
      } in
      let (d, made, read) = read_data-append b n v1 rest h in
      let v2 : Variables = record v1 {
        n = record v1.n { content = (received n).content; data_length = n.data_length };
        non_zero = ltb 0 n.data_length;
      } in
      let tail = append d (length_bits b n) in
      (
        append (compressed 8 n.op) (
            append (compressed 32 n.extra1)
              (append (compressed 32 n.extra2) (append (string n.filename) tail))),
        rw (made, node_bits) refl,
        ap (λ z. deserialize_loop b (suc k) v z list) (spread d)
            ∙ rw (read_head-append b n v (append d rest) h, deserialize_loop)
                (rw read (rw (read_length-append b n v2 s h refl) refl)),
      )
    where
      spread :
          (d : S)
          → append
              (append (compressed 8 n.op) (
                append (compressed 32 n.extra1) (
                  append
                    (compressed 32 n.extra2)
                    (append (string n.filename) (append d (length_bits b n))))))
              s
            ≡ append (compressed 8 n.op) (
                append (compressed 32 n.extra1) (
                  append
                    (compressed 32 n.extra2)
                    (append (string n.filename) (append d (append (length_bits b n) s)))))
      spread d =
          b.append-assoc _ _ s
          ∙ ap (append (compressed 8 n.op)) (
              b.append-assoc _ _ s
              ∙ ap (append (compressed 32 n.extra1)) (
                  b.append-assoc _ _ s
                  ∙ ap (append (compressed 32 n.extra2)) (
                      b.append-assoc _ _ s
                      ∙ ap (append (string n.filename)) (b.append-assoc d (length_bits b n) s))))

  nodes_bits-deserialize_loop :
      (ns : List Node) (v : Variables) (s : S) (list : List Node)
      → All IsSendable ns
      → (x : S) × (nodes_bits b ns ≡ some x)
        × (deserialize_loop b (length ns) v (append x s) list ≡ (true, list ++ map received ns))
  unfolding nodes_bits deserialize_loop
  nodes_bits-deserialize_loop [] v s list h =
      (b.nothing, refl, ap (λ ys. (true, ys)) (sym (append-nil list)))
  nodes_bits-deserialize_loop (n ∷ ns) v s list h =
      let (y, made_y, read_y) =
        nodes_bits-deserialize_loop ns (after n v) s (list ++ received n ∷ []) h.1 in
      let (x, made_x, read_x) = node_bits-deserialize_loop n (length ns) v (append y s) list h.0 in
      (
        append x y,
        rw (made_x, nodes_bits) (rw made_y refl),
        ap (λ z. deserialize_loop b (suc (length ns)) v z list) (b.append-assoc x y s)
            ∙ read_x
            ∙ read_y
            ∙ ap (λ ys. (true, ys)) (append-next list (received n) (map received ns)),
      )

  -- Deserialize, given what Serialize has written and anything behind it, succeeds, for at most 10000
  -- nodes that fit the format; the list is then the one that was written, but for full paths,
  -- which become the file names, and for the data of empty files, of which there are none, whatever
  -- was in the list and in the variables before.
  pub deserialize-serialize :
      (ns : List Node) (fresh : Variables) (old : List Node) (s : S)
      → length ns ≤ 10000
      → All IsSendable ns
      → (x : S) × (serialize b ns ≡ some x)
        × (deserialize b fresh (append x s) old ≡ (true, map received ns))
  unfolding serialize deserialize
  deserialize-serialize ns fresh old s short fit =
      let (x, made, read) = nodes_bits-deserialize_loop ns fresh s [] fit in
      let count = compressed 32 (length ns) in
      let fits : length ns < 4294967296 = omega (arith, short) in
      let few : ltb 10000 (length ns) ≡ false = ground (arith, short) in
      (
        append count x,
        rw (made, serialize) refl,
        ap (λ z. deserialize b fresh z old) (b.append-assoc count x s)
            ∙ rw (b.read_compressed-append 32 (length ns) 0 (append x s) fits, deserialize)
                (rw few read),
      )
