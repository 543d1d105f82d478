-- ===== src/Unistdpp/Examples.antt =====
-- `writeAll` to a pipe that takes three bytes at a time, and `readAll` from one that gives two.
use r_m2_stuff_rocket.Base.{ℕ, List, [], ◌∷◌, arith}
use r_m2_stuff_rocket.Unistdpp.WriteAll.{Delivers, write_all, write_all-Delivers}
use r_m2_stuff_rocket.Unistdpp.ReadAll.{Fetches, read_all, read_all-Fetches}
use r_m2_stuff_rocket.Unistdpp.Pipes.{
  three_bytes, three_bytes-Progresses, by_twos, by_twos-IsStream,
}

abbrev message : List ℕ
message = 1 ∷ 2 ∷ 3 ∷ 4 ∷ 5 ∷ []

write_all-Delivers_example : Delivers (9 ∷ []) message (write_all three_bytes 5 0 message (9 ∷ []))
write_all-Delivers_example =
    write_all-Delivers three_bytes three_bytes-Progresses 5 0 message (9 ∷ []) (omega arith)

read_all-Fetches_example :
    Fetches by_twos
      (λ s. s)
      (1 ∷ 2 ∷ 3 ∷ 4 ∷ [])
      []
      (1 ∷ 2 ∷ 3 ∷ 4 ∷ [])
      3
      (read_all by_twos 3 (1 ∷ 2 ∷ 3 ∷ 4 ∷ []) 3 [])
read_all-Fetches_example =
    read_all-Fetches by_twos (λ s. s) by_twos-IsStream 3 (1 ∷ 2 ∷ 3 ∷ 4 ∷ []) 3 [] (omega arith)
