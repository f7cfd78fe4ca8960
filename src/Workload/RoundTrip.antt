-- ===== src/Workload/RoundTrip.antt =====
-- The format of the workload's file: a printer for requests, and that the runner reads back what it
-- printed. (The program has only the reader; the files come from a generator.)
use rocks_db_wrapper.Base.{
  ℕ, ◌≡◌, ◌≢◌, refl, ap, ◌∙◌, true, false, some, List, [], ◌∷◌, ◌++◌, All, >>=-some, ◌==◌, arith,
}
use rocks_db_wrapper.Base.Text.{Text}
use rocks_db_wrapper.Workload.{
  is_space, lines_of, skip_spaces, word, next_word, next_char, operation_of,
}
use rocks_db_wrapper.Workload.Requests.{
  Request, insert_request, update_request, delete_request, query_request, scan_request,
  delete_range_request, unknown_request, request_of, requests,
}

-- The letter of a request, and its words.
abbrev letter : Request → ℕ
letter (insert_request key value) = b'I'
letter (update_request key value) = b'U'
letter (delete_request key) = b'D'
letter (query_request key) = b'Q'
letter (scan_request start_key end_key) = b'S'
letter (delete_range_request start_key end_key) = b'R'
letter unknown_request = b'X'

abbrev arguments : Request → List Text
arguments (insert_request key value) = key ∷ value ∷ []
arguments (update_request key value) = key ∷ value ∷ []
arguments (delete_request key) = key ∷ []
arguments (query_request key) = key ∷ []
arguments (scan_request start_key end_key) = start_key ∷ end_key ∷ []
arguments (delete_range_request start_key end_key) = start_key ∷ end_key ∷ []
arguments unknown_request = []

-- A blank stands before each word.
abbrev joined : List Text → Text
joined [] = []
joined (w ∷ ws) = 32 ∷ (w ++ joined ws)

abbrev print_line : Request → Text
print_line q = letter q ∷ joined (arguments q)

abbrev pub print_workload : List Request → Text
print_workload [] = []
print_workload (q ∷ qs) = print_line q ++ 10 ∷ print_workload qs

-- A word is not empty and has no blanks.
abbrev pub IsWord : Text → Type 0
IsWord w = All (λ c. is_space c ≡ false) w × (w ≢ [])

abbrev pub IsPrintable : List Request → Type 0
IsPrintable qs = All (λ q. All IsWord (arguments q)) qs

-- What stands behind a word: nothing, or a blank.
abbrev Ends : Text → Type 0
Ends [] = Unit
Ends (c ∷ rest) = is_space c ≡ true

joined-Ends : (ws : List Text) → Ends (joined ws)
joined-Ends [] = tt
joined-Ends (w ∷ ws) = refl

word-append :
    (w rest : Text) → All (λ c. is_space c ≡ false) w → Ends rest → word (w ++ rest) ≡ (w, rest)
word-append [] [] h e = refl
word-append [] (c ∷ rest) h e = rw e refl
word-append (c ∷ w) rest h e = rw (h.0, word-append w rest h.1 e) refl

skip_spaces-append : (w rest : Text) → IsWord w → skip_spaces (w ++ rest) ≡ w ++ rest
skip_spaces-append [] rest h = absurd (h.1 refl)
skip_spaces-append (c ∷ w) rest h = rw (h.0.0) refl

next_word-joined :
    (w : Text) (ws : List Text) → IsWord w → next_word (joined (w ∷ ws)) ≡ (w, joined ws)
next_word-joined w ws h =
    ap word (skip_spaces-append w (joined ws) h) ∙ word-append w (joined ws) h.0 (joined-Ends ws)

-- Lines without a newline.
lines_of-line :
    (line text : Text)
    → All (λ c. (c == 10) ≡ false) line
    → lines_of (line ++ 10 ∷ text) ≡ line ∷ lines_of text
lines_of-line [] text h = refl
lines_of-line (c ∷ line) text h = rw (h.0, lines_of-line line text h.1) refl

All-append {ℓ κ} :
    {A : Type ℓ} (P : A → Type κ) (xs ys : List A) → All P xs → All P ys → All P (xs ++ ys)
All-append P [] ys h k = k
All-append P (x ∷ xs) ys h k = (h.0, All-append P xs ys h.1 k)

word-one_line : (w : Text) → All (λ c. is_space c ≡ false) w → All (λ c. (c == 10) ≡ false) w
word-one_line [] h = tt
word-one_line (c ∷ w) h = (ground (arith, h.0), word-one_line w h.1)

joined-one_line : (ws : List Text) → All IsWord ws → All (λ c. (c == 10) ≡ false) (joined ws)
joined-one_line [] h = tt
joined-one_line (w ∷ ws) h =
    (refl, All-append _ w (joined ws) (word-one_line w h.0.0) (joined-one_line ws h.1))

letter-one_line : (q : Request) → (letter q == 10) ≡ false
letter-one_line (insert_request key value) = refl
letter-one_line (update_request key value) = refl
letter-one_line (delete_request key) = refl
letter-one_line (query_request key) = refl
letter-one_line (scan_request start_key end_key) = refl
letter-one_line (delete_range_request start_key end_key) = refl
letter-one_line unknown_request = refl

next_char-print_line :
    (q : Request) → next_char (print_line q) ≡ some (letter q, joined (arguments q))
next_char-print_line (insert_request key value) = refl
next_char-print_line (update_request key value) = refl
next_char-print_line (delete_request key) = refl
next_char-print_line (query_request key) = refl
next_char-print_line (scan_request start_key end_key) = refl
next_char-print_line (delete_range_request start_key end_key) = refl
next_char-print_line unknown_request = refl

-- One word, and two.
one_word : (f : Text → Request) (a : Text) → IsWord a → f (next_word (joined (a ∷ []))).0 ≡ f a
one_word f a h = ap (λ x. f x.0) (next_word-joined a [] h)

two_words :
    (f : Text → Text → Request) (a b : Text)
    → IsWord a
    → IsWord b
    → f (next_word (joined (a ∷ b ∷ []))).0 (next_word (next_word (joined (a ∷ b ∷ []))).1).0
      ≡ f a b
two_words f a b ha hb =
    ap (λ (x : Text × Text). f x.0 (next_word x.1).0) (next_word-joined a (b ∷ []) ha)
    ∙ ap (λ (x : Text × Text). f a x.0) (next_word-joined b [] hb)

request_of-arguments :
    (q : Request)
    → All IsWord (arguments q)
    → request_of (operation_of (letter q)) (joined (arguments q)) ≡ q
request_of-arguments (insert_request key value) h = two_words insert_request key value h.0 h.1.0
request_of-arguments (update_request key value) h = two_words update_request key value h.0 h.1.0
request_of-arguments (delete_request key) h = one_word delete_request key h.0
request_of-arguments (query_request key) h = one_word query_request key h.0
request_of-arguments (scan_request start_key end_key) h =
    two_words scan_request start_key end_key h.0 h.1.0
request_of-arguments (delete_range_request start_key end_key) h =
    two_words delete_range_request start_key end_key h.0 h.1.0
request_of-arguments unknown_request h = refl

lines_of-print_line :
    (q : Request) (text : Text)
    → All IsWord (arguments q)
    → lines_of (print_line q ++ 10 ∷ text) ≡ print_line q ∷ lines_of text
lines_of-print_line q text h =
    lines_of-line (print_line q) text (letter-one_line q, joined-one_line (arguments q) h)

-- A printed workload is read back: from its text the runner takes these requests, in order, if the keys
-- and values are words, which have a character and no blank.
pub requests-print_workload :
    (qs : List Request) → IsPrintable qs → requests (lines_of (print_workload qs)) ≡ some qs
unfolding requests
requests-print_workload [] h = refl
requests-print_workload (q ∷ qs) h =
    ap requests (lines_of-print_line q (print_workload qs) h.0)
    ∙ >>=-some _ (next_char-print_line q) (
        >>=-some _ (requests-print_workload qs h.1)
          (ap (λ x. some (x ∷ qs)) (request_of-arguments q h.0)))
