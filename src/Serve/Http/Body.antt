-- ===== src/Serve/Http/Body.antt =====
-- What reading a request makes of any connection: src/serve/http.rs.
use reinstinct.Base.{
  ℕ, zero, suc, ◌≤◌, ◌≡◌, refl, sym, ap, arith, Option, none, some, Bool-cases, inl, inr, true,
  List, [], ◌∷◌, ◌++◌, All, false, length, length-take, take, drop, take-append-drop, ltb, ltb→le,
  ◌==◌, Ensures, holds, rejected, Ensures-bind, Ensures-map, Ensures-if,
}
use reinstinct.Base.Utf8.{is_utf8, chars}
use reinstinct.Serve.Http.{
  Request, HttpError, max_body_bytes, max_header_bytes, max_headers, split_line, read_line,
  trim_end, is_nil, next_word, content_length_of, read_headers, read_body, word_or, read_request,
}

-- A line that was read, and what follows it: it ends with its only newline, or with the connection.
pub data IsLine : List ℕ → List ℕ → Type 0 where
  ended :
      (front : List ℕ) (c : ℕ) {rest : List ℕ}
      → All (λ x. (x == 10) ≡ false) front
      → (c == 10) ≡ true
      → IsLine (front ++ (c ∷ [])) rest
  cut : (front : List ℕ) → All (λ x. (x == 10) ≡ false) front → IsLine front []

IsLine-cons : {c : ℕ} {h rest : List ℕ} → (c == 10) ≡ false → IsLine h rest → IsLine (c ∷ h) rest
IsLine-cons {c = c} e (ended front d all newline) = ended (c ∷ front) d (e, all) newline
IsLine-cons {c = c} e (cut front all) = cut (c ∷ front) (e, all)

split_line-IsLine : (s : List ℕ) → IsLine (split_line s).0 (split_line s).1
unfolding split_line
split_line-IsLine [] = cut [] tt
split_line-IsLine (c ∷ cs) = elim (Bool-cases (c == 10)) [
  | inl newline ↦ rw newline (ended [] c tt newline)
  | inr other ↦ rw other (IsLine-cons other (split_line-IsLine cs))
]

split_line-append : (s : List ℕ) → s ≡ (split_line s).0 ++ (split_line s).1
unfolding split_line
split_line-append [] = refl
split_line-append (c ∷ cs) = elim (Bool-cases (c == 10)) [
  | inl newline ↦ rw newline refl
  | inr other ↦ rw other (ap (λ t. c ∷ t) (split_line-append cs))
]

-- The first line of `s`, and what is behind it.
abbrev pub StartsWith : List ℕ → List ℕ → List ℕ → Type 0
StartsWith s line rest = (s ≡ line ++ rest) × IsLine line rest

read_line-StartsWith : (s : List ℕ) → Ensures (λ r. StartsWith s r.0 r.1) (read_line s)
unfolding read_line
read_line-StartsWith s =
    Ensures-if (is_utf8 (split_line s).0) (λ _. holds (split_line-append s, split_line-IsLine s))
      (λ _. rejected)

-- A line of white space, or the end of the connection.
abbrev pub IsBlank : List ℕ → Type 0
IsBlank line = is_nil (trim_end (chars line)) ≡ true

-- The header lines of `s` up to the first blank one, behind which `rest` is left. They make the
-- content length `n'` of `n`.
pub data Headers : ℕ → ℕ → List ℕ → List ℕ → Type 0 where
  blank :
      {n : ℕ} {s line rest : List ℕ} → StartsWith s line rest → IsBlank line → Headers n n s rest
  header :
      {n n' : ℕ} {s line more rest : List ℕ}
      → StartsWith s line more
      → is_nil (trim_end (chars line)) ≡ false
      → Headers (content_length_of (trim_end (chars line)) n) n' more rest
      → Headers n n' s rest

nil-IsBlank : (line : List ℕ) → is_nil line ≡ true → IsBlank line
unfolding chars trim_end
nil-IsBlank [] e = refl
nil-IsBlank (c ∷ cs) e = cc

read_headers-Headers :
    (left n : ℕ) (s : List ℕ) → Ensures (λ r. Headers n r.0 s r.1) (read_headers left n s)
unfolding read_headers
read_headers-Headers zero n s = rejected
read_headers-Headers (suc left) n s = Ensures-bind (read_line-StartsWith s) λ (h, rest) b.
    let t = trim_end (chars h) in
    Ensures-if (is_nil h) (λ e. holds (blank b (nil-IsBlank h e)))
      λ _.
        Ensures-if (ltb max_header_bytes (length h)) (λ _. rejected)
          λ _.
            Ensures-if (is_nil t) (λ e. holds (blank b e))
              λ e.
                Ensures-map (read_headers-Headers left (content_length_of t n) rest)
                  λ (_, r) k. header b e k

-- A body that was accepted stands right behind the request line, the headers and the first blank
-- line, is as long as the headers say, within the cap, and UTF-8.
pub record IsAccepted (s body : List ℕ) : Type 0 where
  pub line : List ℕ
  pub behind_line : List ℕ
  pub first : StartsWith s line behind_line
  pub content_length : ℕ
  pub behind_head : List ℕ
  pub headers : Headers 0 content_length behind_line behind_head
  pub rest : List ℕ
  pub place : behind_head ≡ body ++ rest
  pub whole : length body ≡ content_length
  pub bounded : content_length ≤ max_body_bytes
  pub valid : is_utf8 body ≡ true

-- A body as `read_body` takes it from what is behind the head.
record IsBody (n : ℕ) (t body : List ℕ) : Type 0 where
  rest : List ℕ
  place : t ≡ body ++ rest
  whole : length body ≡ n
  bounded : n ≤ max_body_bytes
  valid : is_utf8 body ≡ true

read_body-IsBody : (n : ℕ) (t : List ℕ) → Ensures (IsBody n t) (read_body n t)
unfolding read_body
read_body-IsBody n t =
    Ensures-if (ltb max_body_bytes n) (λ _. rejected)
      λ small.
        Ensures-if (ltb (length t) n) (λ _. rejected)
          λ enough.
            Ensures-if (is_utf8 (take n t))
              (λ valid. holds (record {
                rest = drop n t;
                place = sym (take-append-drop n t);
                whole = omega (arith, length-take n t, ltb→le (length t) n enough);
                bounded = ltb→le max_body_bytes n small;
                valid = valid;
              }))
              (λ _. rejected)

word_or-Ensures :
    (why : HttpError) (o : Option (List ℕ × List ℕ)) → Ensures (λ _. Unit {0}) (word_or why o)
word_or-Ensures why none = rejected
word_or-Ensures why (some w) = holds tt

-- Every connection is read to an error or to a request, whose body is UTF-8, at most 8 MiB long, and
-- stands right behind the request line, the headers and the first blank line, with the length that
-- the headers announce (0 if none does).
pub read_request-IsAccepted :
    (s : List ℕ) → Ensures (λ (r : Request). IsAccepted s r.body) (read_request s)
unfolding read_request
read_request-IsAccepted s = Ensures-bind (read_line-StartsWith s) λ (line, after_line) b.
    Ensures-bind
      (Ensures-if {P = λ _. Unit {0}} (ltb max_header_bytes (length line)) (λ _. rejected)
        (λ _. holds tt))
      λ _ _. Ensures-bind (word_or-Ensures _ (next_word (chars line))) λ (method, after_method) _.
        Ensures-bind (word_or-Ensures _ (next_word after_method)) λ (path, _) _.
          Ensures-bind (read_headers-Headers max_headers 0 after_line) λ (n, after_head) k.
            Ensures-bind (read_body-IsBody n after_head) λ body h. holds (record {
              line = line;
              behind_line = after_line;
              first = b;
              content_length = n;
              behind_head = after_head;
              headers = k;
              rest = h.rest;
              place = h.place;
              whole = h.whole;
              bounded = h.bounded;
              valid = h.valid;
            })
