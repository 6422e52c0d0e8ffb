-- ===== src/Nvk/Reading.antt =====
-- How proc_exec of tools/nvk/src/proc.c reads a file.
use stardustos.Prelude.{
  List, [], ap, arith, drop, false, ge→ltb, length, length-append, ltb, lt→ltb, none, refl, some,
  suc, true, zero, ℕ, ◌%◌, ◌++◌, ◌+◌, ◌<◌, ◌^◌, ◌∙◌, ◌∷◌, ◌≡◌, ◌≤◌,
}
use stardustos.Fs.{Node, Tables}
use stardustos.Fs.Files.{fs_node_read, is_negative}
use stardustos.Nvk.Exec.{overlay, read_from}

is_negative_small : (n : ℕ) → n < 2 ^ 31 → is_negative n ≡ false
is_negative_small n h = ground (arith, h)

length-drop : (n : ℕ) (xs : List ℕ) → n ≤ length xs → length (drop n xs) + n ≡ length xs
length-drop zero xs h = omega arith
length-drop (suc n) [] h = absurd (omega arith)
length-drop (suc n) (x ∷ xs) h = omega (arith, length-drop n xs (omega arith))

overlay-fits :
    (bytes block : List ℕ) (n : ℕ)
    → length bytes ≡ n
    → n ≤ length block
    → overlay bytes block ≡ some (bytes ++ drop n block)
unfolding overlay
overlay-fits bytes block n len fits =
    let room : ltb (length block) (length bytes) ≡ false = ground (arith, len, fits) in
    rw room (ap (λ i. some (bytes ++ drop i block)) len)

module _ {W : Type 0} (node_at : W → ℕ → Node W) (t : Tables W) (links : ℕ) where
  -- One round of the loop.
  read_from-round :
      (fuel : ℕ) (w w' : W) (node total r : ℕ) (bytes prog prog' : List ℕ)
      → ltb total (node_at w node).size ≡ true
      → fs_node_read node_at t links w node total (node_at w node).size ≡ some (r, bytes, w')
      → is_negative r ≡ false
      → overlay bytes prog ≡ some prog'
      → read_from node_at t links (suc fuel) w node total prog
        ≡ read_from node_at t links fuel w' node ((total + r) % 2 ^ 32) prog'
  unfolding read_from
  read_from-round fuel w w' node total r bytes prog prog' more reads plus over =
      rw (more, read_from) (rw reads (ground (arith, plus, over)))

  read_from-end :
      (fuel : ℕ) (w : W) (node total : ℕ) (prog : List ℕ)
      → ltb total (node_at w node).size ≡ false
      → read_from node_at t links (suc fuel) w node total prog ≡ some (none, prog, w)
  unfolding read_from
  read_from-end fuel w node total prog all = rw (all, read_from) refl

  -- A file whose read gives nothing before its size is reached is read for ever.
  pub read_from_stalls :
      (fuel : ℕ) (w : W) (node total : ℕ) (prog : List ℕ)
      → total < (node_at w node).size
      → total < 2 ^ 32
      → fs_node_read node_at t links w node total (node_at w node).size ≡ some (0, [], w)
      → read_from node_at t links fuel w node total prog ≡ none
  unfolding read_from overlay
  read_from_stalls zero w node total prog less word stall = refl
  read_from_stalls (suc fuel) w node total prog less word stall =
      let more : ltb total (node_at w node).size ≡ true = lt→ltb total (node_at w node).size less in
      let same : (total + 0) % 2 ^ 32 ≡ total = omega (arith, word) in
      let empty : ltb (length prog) 0 ≡ false = ground arith in
      let over : overlay [] prog ≡ some prog = rw (empty, overlay) refl in
      read_from-round fuel w w node total 0 [] prog prog more stall refl over
      ∙ rw same (read_from_stalls fuel w node total prog less word stall)

  module _ (w w1 w2 : W) (node n k : ℕ) (a b prog : List ℕ) where
    -- A file that arrives in two parts is not put together: the second part is written over the
    -- first one, at the front of the block.
    pub read_from_overwrites :
        n + k < 2 ^ 31
        → 0 < k
        → (node_at w node).size ≡ n + k
        → (node_at w1 node).size ≡ n + k
        → (node_at w2 node).size ≡ n + k
        → length prog ≡ n + k
        → length a ≡ n
        → length b ≡ k
        → fs_node_read node_at t links w node 0 (n + k) ≡ some (n, a, w1)
        → fs_node_read node_at t links w1 node n (n + k) ≡ some (k, b, w2)
        → read_from node_at t links 3 w node 0 prog
          ≡ some (none, b ++ drop k (a ++ drop n prog), w2)
    unfolding read_from overlay
    read_from_overwrites small some_rest s0 s1 s2 room len_a len_b one two =
        let first : overlay a prog ≡ some (a ++ drop n prog) =
          overlay-fits a prog n len_a (omega (arith, room)) in
        let second : overlay b (a ++ drop n prog) ≡ some (b ++ drop k (a ++ drop n prog)) =
          overlay-fits b (a ++ drop n prog) k len_b (
            omega (
              arith,
              length-append {0} a (drop n prog),
              len_a,
              room,
              length-drop n prog (omega (arith, room)),
            )) in
        let zero_plus : (0 + n) % 2 ^ 32 ≡ n = omega (arith, small) in
        let all : (n + k) % 2 ^ 32 ≡ n + k = omega (arith, small) in
        let round_one =
          read_from-round 2 w w1 node 0 n a prog (a ++ drop n prog)
            (rw s0 (lt→ltb 0 (n + k) (omega (arith, some_rest)))) (rw s0 one)
            (is_negative_small n (omega (arith, small))) first in
        let round_two =
          read_from-round 1 w1 w2 node n k b (a ++ drop n prog) (b ++ drop k (a ++ drop n prog))
            (rw s1 (lt→ltb n (n + k) (omega (arith, some_rest)))) (rw s1 two)
            (is_negative_small k (omega (arith, small))) second in
        let done =
          read_from-end 0 w2 node (n + k) (b ++ drop k (a ++ drop n prog))
            (rw s2 (ge→ltb (n + k) (n + k) (omega arith))) in
        round_one
        ∙ ap (λ i. read_from node_at t links 2 w1 node i (a ++ drop n prog)) zero_plus
        ∙ round_two
        ∙ ap (λ i. read_from node_at t links 1 w2 node i (b ++ drop k (a ++ drop n prog))) all
        ∙ done
