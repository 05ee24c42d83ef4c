-- ===== src/DebugBridge/Frames.antt =====
-- The places that `parseNodeStack` reads (pkg/debugbridge/node.go).
use bug_it.Base.{
  ℕ, ap₂, pos, ◌+◌, ◌-◌, ◌^◌, ◌<◌, ◌≡◌, ◌≢◌, refl, ap, ◌∙◌, inl, true, false, [], ◌∷◌, ◌++◌, none,
  some, ltb, arith, All-append, length, take, drop, length-append, append_assoc, drop_behind,
  take_exact,
}
use bug_it.Text.{Bytes, codes, has_prefix}
use bug_it.Text.Search.{
  contains, index_byte, last_index_byte-append, index_byte-append, Lacks, contains-append,
  contains-front,
}
use bug_it.Text.Trim.{trim_left, trim_space, trim_right_kept, trim_space_behind}
use bug_it.Text.Decimal.{format, format-All}
use bug_it.Text.Split.{split_byte, split_byte-append}
use bug_it.Inspector.{is_empty_text}
use bug_it.DebugBridge.{
  with_brackets, frame_parts, source_ref, frame_ref, or_next, first_ref, parse_node_stack,
}
use bug_it.DebugBridge.Location.{digits-Lacks, location, parse_stack_location-location}

-- A line of the stack that names a function, and what `TrimSpace` leaves of it.
abbrev pub trimmed_line : Bytes → Bytes → Bytes
trimmed_line fn loc = codes "at " ++ fn ++ codes " (" ++ loc ++ codes ")"

abbrev pub frame_line : Bytes → Bytes → Bytes
frame_line fn loc = codes "    " ++ trimmed_line fn loc

trim_space-frame_line : (fn loc : Bytes) → trim_space (frame_line fn loc) ≡ trimmed_line fn loc
unfolding trim_space trim_left
trim_space-frame_line fn loc = trim_right_kept (codes "at " ++ fn ++ codes " (" ++ loc) b')' refl

-- The text before the first bracket, and the text behind it.
two_parts :
    (a loc tail : Bytes) (x y : ℕ)
    → a ++ x ∷ y ∷ [] ++ loc ++ tail ≡ (a ++ x ∷ []) ++ y ∷ (loc ++ tail)
two_parts [] loc tail x y = refl
two_parts (c ∷ a) loc tail x y = ap (λ t. c ∷ t) (two_parts a loc tail x y)

brackets-within :
    (line fn loc : Bytes) (start end : ℕ)
    → start < end
    → trim_space (take (start - 3) (drop 3 line)) ≡ fn
    → take (end - (start + 1)) (drop (start + 1) line) ≡ loc
    → with_brackets line (some start) (some end) ≡ (fn, loc)
unfolding with_brackets
brackets-within line fn loc start end h p q =
    let e : ltb start end ≡ true = ground arith in rw e (ap₂ (λ a b. (a, b)) p q)

taken_name :
    (fn loc : Bytes)
    → trim_space (take (length (codes "at " ++ fn ++ b' ' ∷ []) - 3) (drop 3 (trimmed_line fn loc)))
      ≡ trim_space fn
taken_name fn loc =
    ap (λ t. trim_space (take (length (codes "at " ++ fn ++ b' ' ∷ []) - 3) t))
      (two_parts fn loc (b')' ∷ []) b' ' b'(')
    ∙ ap trim_space (take_exact _ (fn ++ b' ' ∷ []) (b'(' ∷ (loc ++ b')' ∷ [])) (omega arith))
    ∙ trim_space_behind fn

taken_location :
    (fn loc : Bytes) (end : ℕ)
    → end ≡ length (codes "at " ++ fn ++ b' ' ∷ []) + 1 + length loc
    → take
        (end - (length (codes "at " ++ fn ++ b' ' ∷ []) + 1))
        (drop (length (codes "at " ++ fn ++ b' ' ∷ []) + 1) (trimmed_line fn loc))
      ≡ loc
taken_location fn loc end e =
    let front = codes "at " ++ fn ++ b' ' ∷ [] in
    ap (λ t. take (end - (length front + 1)) (drop (length front + 1) t))
      (two_parts (codes "at " ++ fn) loc (b')' ∷ []) b' ' b'(')
    ∙ ap (take (end - (length front + 1))) (drop_behind front b'(' (loc ++ b')' ∷ []))
    ∙ take_exact (end - (length front + 1)) loc (b')' ∷ []) (omega arith)

first_bracket :
    (fn loc : Bytes)
    → Lacks b'(' fn
    → index_byte (trimmed_line fn loc) b'(' ≡ some (length (codes "at " ++ fn ++ b' ' ∷ []))
first_bracket fn loc l =
    ap (λ t. index_byte t b'(') (two_parts (codes "at " ++ fn) loc (b')' ∷ []) b' ' b'(')
    ∙ index_byte-append b'(' (codes "at " ++ fn ++ b' ' ∷ []) (loc ++ b')' ∷ []) (
        All-append (λ c. c ≢ b'(') (codes "at " ++ fn) (b' ' ∷ [])
          (omega arith, (omega arith, (omega arith, l))) (omega arith, tt))

frame_parts-trimmed_line :
    (fn loc : Bytes) → Lacks b'(' fn → frame_parts (trimmed_line fn loc) ≡ (trim_space fn, loc)
unfolding frame_parts
frame_parts-trimmed_line fn loc l =
    let front = codes "at " ++ fn ++ codes " (" ++ loc in
    let one = length-append (codes "at " ++ fn) (b' ' ∷ []) in
    let two = length-append (codes "at " ++ fn) (codes " (") in
    let three = length-append (codes "at " ++ fn ++ codes " (") loc in
    let total : length front ≡ length (codes "at " ++ fn ++ b' ' ∷ []) + 1 + length loc =
      omega arith in
    ap₂ (with_brackets (trimmed_line fn loc)) (first_bracket fn loc l)
      (last_index_byte-append b')' front [] tt)
    ∙ brackets-within (trimmed_line fn loc) (trim_space fn) loc _ (length front) (omega arith)
        (taken_name fn loc) (taken_location fn loc (length front) total)

has_colon :
    (fn file : Bytes) (line column : ℕ)
    → contains (trimmed_line fn (location file line column)) (b':' ∷ []) ≡ true
has_colon fn file line column =
    let front = codes "at " ++ fn ++ codes " (" in
    let first = file ++ b':' ∷ format line in
    ap (λ t. contains t (b':' ∷ []))
      (append_assoc front (location file line column) (codes ")")
        ∙ ap (λ t. front ++ t) (append_assoc first (b':' ∷ format column) (codes ")")))
    ∙ contains-append front (first ++ (b':' ∷ format column ++ codes ")")) (b':' ∷ []) (
        contains-append first (b':' ∷ format column ++ codes ")") (b':' ∷ [])
          (contains-front (b':' ∷ []) (format column ++ codes ")")))

frame_ref-trimmed_line :
    (fn file : Bytes) (line column : ℕ)
    → Lacks b'(' fn
    → is_empty_text file ≡ false
    → line < 2 ^ 63
    → column < 2 ^ 63
    → frame_ref (trimmed_line fn (location file line column))
      ≡ some (record {
        index = pos 0;
        file = file;
        line = pos line;
        column = pos column;
        function = trim_space fn;
      })
unfolding frame_ref source_ref has_prefix
frame_ref-trimmed_line fn file line column l ne h k =
    let loc = location file line column in
    let at : contains (trimmed_line fn loc) (b':' ∷ []) ≡ true = has_colon fn file line column in
    rw at (
      rw (frame_parts-trimmed_line fn loc l)
        (rw (parse_stack_location-location file line column h k) (rw ne refl)))

frame_line-Lacks :
    (fn file : Bytes) (line column : ℕ)
    → Lacks 10 fn
    → Lacks 10 file
    → Lacks 10 (frame_line fn (location file line column))
frame_line-Lacks fn file line column l k =
    let line_digits = digits-Lacks 10 (format line) (inl (omega arith)) (format-All line) in
    let column_digits = digits-Lacks 10 (format column) (inl (omega arith)) (format-All column) in
    let place =
      All-append (λ c. c ≢ 10) (file ++ b':' ∷ format line) (b':' ∷ format column)
        (All-append (λ c. c ≢ 10) file (b':' ∷ format line) k (omega arith, line_digits))
        (omega arith, column_digits) in
    let named =
      All-append (λ c. c ≢ 10) (fn ++ codes " (" ++ location file line column) (codes ")")
        (All-append (λ c. c ≢ 10) (fn ++ codes " (") (location file line column)
          (All-append (λ c. c ≢ 10) fn (codes " (") l (omega arith, (omega arith, tt))) place)
        (omega arith, tt) in
    let space : b' ' ≢ 10 = omega arith in
    (space, (space, (space, (space, (omega arith, (omega arith, (omega arith, named)))))))

skipped-frame_ref : (text : Bytes) → has_prefix text (codes "at ") ≡ false → frame_ref text ≡ none
unfolding frame_ref
skipped-frame_ref text h = rw h refl

-- A stack whose first line does not start with `at ` and whose second line names a function as Node writes it, with a
-- file, a line and a column, is read as that place, with the function's name trimmed of white space: if the
-- texts have no line feed, the name no `(`, the file is not empty, and the numbers are below 2^63.
pub parse_node_stack-frame_line :
    (head fn file rest : Bytes) (line column : ℕ)
    → Lacks 10 head
    → has_prefix (trim_space head) (codes "at ") ≡ false
    → Lacks 10 fn
    → Lacks b'(' fn
    → Lacks 10 file
    → is_empty_text file ≡ false
    → line < 2 ^ 63
    → column < 2 ^ 63
    → parse_node_stack (head ++ 10 ∷ frame_line fn (location file line column) ++ 10 ∷ rest)
      ≡ some (record {
        index = pos 0;
        file = file;
        line = pos line;
        column = pos column;
        function = trim_space fn;
      })
unfolding parse_node_stack first_ref
parse_node_stack-frame_line head fn file rest line column hd nf fl fb ll ne h k =
    let frame = frame_line fn (location file line column) in
    let ref = frame_ref-trimmed_line fn file line column fb ne h k in
    ap first_ref (
      ap (split_byte 10) (append_assoc head (10 ∷ frame) (10 ∷ rest))
      ∙ split_byte-append 10 head (frame ++ 10 ∷ rest) hd
      ∙ ap (λ t. head ∷ t)
          (split_byte-append 10 frame rest (frame_line-Lacks fn file line column fl ll)))
    ∙ ap₂ or_next (skipped-frame_ref (trim_space head) nf) (
        ap (λ o. or_next o (first_ref (split_byte 10 rest)))
          (ap frame_ref (trim_space-frame_line fn (location file line column)) ∙ ref))
