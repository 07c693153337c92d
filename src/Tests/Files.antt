-- ===== src/Tests/Files.antt =====
-- The list of files of patch/FileList.cpp at concrete data, with a stream that is a list of what was
-- written.
use raknet_proxy.Base.{ℕ, ◌≡◌, refl, ap, Bool, true, false, List, [], ◌∷◌, ◌++◌, none, some, arith}
use raknet_proxy.Files.{
  Node, BitStream, Variables, serialize, read_head, read_some_data, read_data, read_length,
  deserialize_loop, deserialize,
}
use raknet_proxy.Files.RoundTrip.{IsSendable, received, deserialize-serialize}

data Token : Type 0 where
  number : ℕ → Token
  flag : Bool → Token
  text : List ℕ → Token

append-tokens : (a b c : List Token) → (a ++ b) ++ c ≡ a ++ (b ++ c)
append-tokens [] b c = refl
append-tokens (x ∷ a) b c = ap (λ ys. x ∷ ys) (append-tokens a b c)

abbrev read_number : ℕ → ℕ → List Token → Bool × ℕ × List Token
read_number w old (number v ∷ s) = (true, v, s)
read_number w old s = (false, old, s)

abbrev read_flag : Bool → List Token → Bool × Bool × List Token
read_flag old (flag v ∷ s) = (true, v, s)
read_flag old s = (false, old, s)

abbrev read_text : List ℕ → List Token → List ℕ × List Token
read_text old (text v ∷ s) = (v, s)
read_text old s = (old, s)

abbrev tokens : BitStream
tokens = record {
  S = List Token;
  nothing = [];
  append = λ a b. a ++ b;
  append-assoc = append-tokens;
  compressed = λ w v. number v ∷ [];
  bit = λ v. flag v ∷ [];
  bytes = λ d. text d ∷ [];
  string = λ t. text t ∷ [];
  read_compressed = read_number;
  read_bit = read_flag;
  read_bytes = λ n s. read_text [] s;
  read_string = read_text;
  read_compressed-append = λ w v old s small. refl;
  read_bit-append = λ v old s. refl;
  read_bytes-append = λ d s. refl;
  read_string-append = λ t old s short. refl;
}

-- A file, and one that the list only refers to.
abbrev readme : Node
readme = record {
  filename = 65 ∷ 66 ∷ [];
  full_path = 47 ∷ 65 ∷ 66 ∷ [];
  content = some (1 ∷ 2 ∷ 3 ∷ []);
  data_length = 3;
  file_length = 3;
  op = 7;
  extra1 = 0;
  extra2 = 9;
}

abbrev missing : Node
missing = record readme { content = none; data_length = 0; file_length = 500 }

abbrev blank : Variables
blank = record { n = readme; non_zero = true; matches_length = false }

length_too_large :
    deserialize tokens blank
      (number 1 ∷ number 7 ∷ number 0 ∷ number 9 ∷ text [] ∷ flag true ∷ number 2000000001 ∷ [])
      (readme ∷ [])
    ≡ (false, [])
unfolding deserialize deserialize_loop read_head read_data read_some_data
length_too_large = refl

cut_off :
    deserialize tokens blank
      (number 1 ∷ number 7 ∷ number 0 ∷ number 9 ∷ text [] ∷ flag false ∷ [])
      (readme ∷ [])
    ≡ (false, [])
unfolding deserialize deserialize_loop read_head read_data read_length
cut_off = refl

readme-IsSendable : IsSendable readme
readme-IsSendable = record {
  op = omega arith;
  extra1 = omega arith;
  extra2 = omega arith;
  filename = omega arith;
  data_length = omega arith;
  content = λ e. (1 ∷ 2 ∷ 3 ∷ [], refl, refl);
  file_length = omega arith;
}

missing-IsSendable : IsSendable missing
missing-IsSendable = record {
  op = omega arith;
  extra1 = omega arith;
  extra2 = omega arith;
  filename = omega arith;
  data_length = omega arith;
  content = λ e. cc;
  file_length = omega arith;
}

deserialize-serialize_example :
    (x : List Token) × (serialize tokens (readme ∷ missing ∷ []) ≡ some x)
    × (deserialize tokens blank (x ++ flag true ∷ []) []
        ≡ (true, received readme ∷ received missing ∷ []))
deserialize-serialize_example =
    deserialize-serialize tokens (readme ∷ missing ∷ []) blank [] (flag true ∷ []) (omega arith)
      (readme-IsSendable, (missing-IsSendable, tt))
