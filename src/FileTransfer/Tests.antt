-- ===== src/FileTransfer/Tests.antt =====
-- The upload of sp/sock/clnt/clnt.c on concrete inputs.
use temp.Base.{
  ℕ, ◌≡◌, ◌⊎◌, refl, none, some, List, [], ◌∷◌, ◌++◌, arith, length, Bool, false, ◌||◌, ◌==◌,
  if◌then◌else◌, Bool-cases, inl, inr, ap, sym, ◌∙◌,
}
use temp.Base.Sys.{Ends, Call, Env, Errno, ret, send, read, recv, write}
use temp.FileTransfer.{recv_file, send_file}
use temp.FileTransfer.Download.{Stored, Nameless, recv_file_lem}
use temp.Base.Traffic.{stream, got}
use temp.FileTransfer.Upload.{WholeSends, ReadsFile, send_file_lem}

-- Sends are whole but for the text of four bytes, of which one is taken.
abbrev taken : List ℕ → ℕ
taken (a ∷ b ∷ c ∷ d ∷ []) = 1
taken xs = length xs

abbrev one_short : Env
one_short [] = record { ret = none; errno = Errno.other; bytes = [] }
one_short (send f text ∷ h) = record { ret = some (taken text); errno = Errno.other; bytes = [] }
one_short (c ∷ h) = record { ret = some 0; errno = Errno.other; bytes = [] }

-- Sends are whole, and the file 4 has the two bytes 7 and 8, which the first read of it gives.
abbrev file : List ℕ
file = 7 ∷ 8 ∷ []

abbrev begun : List Call → Bool
begun [] = false
begun (read g n ∷ h) = g == 4 || begun h
begun (c ∷ h) = begun h

abbrev whole : Env
whole [] = record { ret = none; errno = Errno.other; bytes = [] }
whole (send f text ∷ h) = record { ret = some (length text); errno = Errno.other; bytes = [] }
whole (read f n ∷ h) = record {
  ret = some (if begun h then 0 else 2);
  errno = Errno.other;
  bytes = if begun h then [] else file;
}
whole (c ∷ h) = record { ret = some 4; errno = Errno.other; bytes = 0 ∷ 0 ∷ 0 ∷ 0 ∷ [] }

whole-WholeSends : WholeSends whole
whole-WholeSends f text h = refl

got-begun : (h : List Call) → got whole 4 h ≡ (if begun h then file else [])
unfolding got
got-begun [] = refl
got-begun (read g n ∷ h) = elim (Bool-cases (g == 4)) [
  | inr not_it ↦ rw not_it (got-begun h)
  | inl it ↦ elim (Bool-cases (begun h)) [
    | inl yet ↦ rw (it, got-begun h, yet) refl
    | inr fresh ↦ rw (it, got-begun h, fresh) refl
  ]
]
got-begun (c ∷ h) = got-begun h

whole-ReadsFile : ReadsFile whole 4 file
whole-ReadsFile h rest e = elim (Bool-cases (begun h)) [
  | inl yet ↦
      let at : got whole 4 h ≡ file = got-begun h ∙ rw yet in
      let over : rest ≡ [] = nothing_left rest (ap (λ t. t ++ rest) (sym at) ∙ e) in
      rw (yet, over) (refl, refl)
  | inr fresh ↦
      let at : got whole 4 h ≡ [] = got-begun h ∙ rw fresh in
      let all : rest ≡ file = ap (λ t. t ++ rest) (sym at) ∙ e in rw (fresh, all) (refl, refl)
]
  where
    nothing_left : (rest : List ℕ) → file ++ rest ≡ file → rest ≡ []
    nothing_left [] e = refl
    nothing_left (x ∷ xs) e = absurd (omega (arith, ap length e))

send_file_lem_example :
    (h' : List Call) × (send_file 3 3 4 (1 ∷ []) whole [] ≡ ret 0 h')
    × (stream whole 3 h' ≡ stream whole 3 [] ++ (1 ∷ 7 ∷ 8 ∷ []))
unfolding got
send_file_lem_example =
    send_file_lem 3 3 4 (1 ∷ []) file whole [] whole-WholeSends whole-ReadsFile refl refl refl
      (omega arith)

-- The client 6 sends the name "g" and a file of two bytes, and then ends; the file is opened as 4.
abbrev two_bytes : Env
two_bytes (recv f n ∷ write g text ∷ h) = record { ret = some 0; errno = Errno.other; bytes = [] }
two_bytes (recv f n ∷ send g text ∷ h) = record { ret = some 2; errno = Errno.other; bytes = file }
two_bytes (recv f n ∷ h) = record { ret = some 1; errno = Errno.other; bytes = b'g' ∷ [] }
two_bytes (write f text ∷ h) = record { ret = some 2; errno = Errno.other; bytes = [] }
two_bytes h = record { ret = some 4; errno = Errno.other; bytes = [] }

recv_file_lem_example :
    Ends
      (λ r h'. Stored two_bytes 6 [] r h' ⊎ Nameless two_bytes 6 [] r h')
      (λ _ _. ⊥)
      (recv_file 3 6 two_bytes [])
recv_file_lem_example = recv_file_lem 3 6 two_bytes []
