-- ===== src/Parser/Lines.antt =====
-- A whole command line comes back from the parser: the command, its name and its arguments.
use epic_kfc.Base.{
  ℕ, suc, ◌-◌, QString, true, none, some, List, [], ◌∷◌, ◌++◌, ◌≡◌, arith, refl, sym, ap, ◌∙◌, All,
  append-nil, append_assoc, index_of, starts_with, length, drop, take,
}
use mathlib.Core.Bool.{false≢true}
use native.Mathlib.Numerals.{add-one}
use epic_kfc.Models.{success, CommandType}
use epic_kfc.Platform.{Qt, QtLaws, IsVisibleLast}
use epic_kfc.Commands.{command_type_name, command_type_from_name}
use epic_kfc.Commands.Names.{
  is_lower_word, all_lower, all_lower-All, lower_IsVisibleLast, command_type_from_name-name,
  command_type_name-is_lower_word,
}
use epic_kfc.Parser.{
  Tokens, finish, scan, tokenize_arguments, mid, parse, arguments_after, command_name_length,
}
use epic_kfc.Parser.NonEmpty.{IsNonEmpty}
use epic_kfc.Parser.RoundTrip.{quote, escape, render, scan-space, tokenize_arguments-render}

index_of-lower :
    (w r : QString) → all_lower w ≡ true → index_of (w ++ b' ' ∷ r) b' ' ≡ some (length w)
unfolding index_of
index_of-lower [] r h = refl
index_of-lower (c ∷ w) r h = ground (arith, index_of-lower w r)

index_of-lower_none : (w : QString) → all_lower w ≡ true → index_of w b' ' ≡ none
unfolding index_of
index_of-lower_none [] h = refl
index_of-lower_none (c ∷ w) h = ground (arith, index_of-lower_none w)

take-length : (w r : QString) → take (length w) (w ++ r) ≡ w
take-length [] r = refl
take-length (c ∷ w) r = ap (λ (t : QString). c ∷ t) (take-length w r)

drop-length : (w r : QString) → drop (length w) (w ++ r) ≡ r
drop-length [] r = refl
drop-length (c ∷ w) r = drop-length w r

drop-suc-length : (w : QString) (c : ℕ) (r : QString) → drop (suc (length w)) (w ++ c ∷ r) ≡ r
drop-suc-length [] c r = refl
drop-suc-length (d ∷ w) c r = drop-suc-length w c r

module _ {qt : Qt} (laws : QtLaws qt) where
  IsVisibleLast-append : (pre s : QString) → IsVisibleLast qt s → IsVisibleLast qt (pre ++ s)
  IsVisibleLast-append pre s (front, c, e, visible) =
      (pre ++ front, c, rw e (sym (append_assoc pre front (c ∷ []))), visible)

  quote-IsVisibleLast : (s : QString) → IsVisibleLast qt (quote s)
  unfolding quote
  quote-IsVisibleLast s = (b'"' ∷ escape s, b'"', refl, laws.is_space_quote)

  render-IsVisibleLast :
      (arg : QString) (more : List QString) → IsVisibleLast qt (render (arg ∷ more))
  unfolding render
  render-IsVisibleLast arg [] =
      IsVisibleLast-append (b' ' ∷ []) _ (rw (append-nil (quote arg)) (quote-IsVisibleLast arg))
  render-IsVisibleLast arg (next ∷ more) =
      IsVisibleLast-append (b' ' ∷ quote arg) _ (render-IsVisibleLast next more)

  -- the space in front of the first argument is skipped
  tokenize_arguments-space :
      (r : QString) → tokenize_arguments qt (b' ' ∷ r) ≡ tokenize_arguments qt r
  unfolding tokenize_arguments scan
  tokenize_arguments-space r = ap (λ (t : Tokens). finish qt (scan qt t r)) (scan-space laws [] [])

  pub lower_line_IsVisibleLast :
      (w : QString) (args : List QString)
      → is_lower_word w ≡ true
      → IsVisibleLast qt (b'/' ∷ (w ++ render args))
  lower_line_IsVisibleLast [] args h = absurd (false≢true h)
  lower_line_IsVisibleLast (c ∷ w) [] h =
      unfold render in
      IsVisibleLast-append (b'/' ∷ []) _
        (rw append-nil (lower_IsVisibleLast laws c w (all_lower-All (c ∷ w) h)))
  lower_line_IsVisibleLast w (arg ∷ more) h =
      IsVisibleLast-append (b'/' ∷ w) _ (render-IsVisibleLast arg more)

  index_of_line :
      (w arg : QString) (more : List QString)
      → all_lower w ≡ true
      → index_of (b'/' ∷ (w ++ render (arg ∷ more))) b' ' ≡ some (suc (length w))
  unfolding index_of render
  index_of_line w arg more lower = rw (index_of-lower w (quote arg ++ render more) lower)

  index_of_bare_line : (w : QString) → all_lower w ≡ true → index_of (b'/' ∷ w) b' ' ≡ none
  unfolding index_of
  index_of_bare_line w lower = rw (index_of-lower_none w lower)

  -- the arguments of a line `/w ...`, where the word `w` has no space
  arguments_of_line :
      (w : QString) (args : List QString)
      → all_lower w ≡ true
      → All IsNonEmpty args
      → arguments_after qt (b'/' ∷ (w ++ render args)) (index_of (b'/' ∷ (w ++ render args)) b' ')
        ≡ success args
  arguments_of_line w [] lower h = unfold render in rw (append-nil w, index_of_bare_line w lower)
  arguments_of_line w (arg ∷ more) lower h =
      rw (index_of_line w arg more lower, add-one)
        (unfold mid render in
          rw (drop-suc-length w b' ' (quote arg ++ render more)) (
            sym (tokenize_arguments-space (quote arg ++ render more))
            ∙ tokenize_arguments-render laws (arg ∷ more) h))

  name_of_line :
      (w : QString) (args : List QString)
      → all_lower w ≡ true
      → mid
          (b'/' ∷ (w ++ render args))
          1
          (command_name_length qt (index_of (b'/' ∷ (w ++ render args)) b' '))
        ≡ w
  unfolding mid
  name_of_line w [] lower = unfold render in rw (append-nil w, index_of_bare_line w lower)
  name_of_line w (arg ∷ more) lower =
      let one_less : suc (length w) - 1 ≡ length w = omega arith in
      rw (index_of_line w arg more lower, one_less) (take-length w (render (arg ∷ more)))

  parse_word :
      (w : QString) (type : CommandType) (args : List QString)
      → is_lower_word w ≡ true
      → command_type_from_name qt w ≡ some type
      → All IsNonEmpty args
      → parse qt (b'/' ∷ (w ++ render args))
        ≡ success (record {
          type = type;
          name = w;
          arguments = args;
          original_line = b'/' ∷ (w ++ render args);
        })
  unfolding parse starts_with
  parse_word [] type args lower found h = absurd (false≢true lower)
  parse_word (c ∷ w) type args lower found h =
      let kept : qt.trimmed (b'/' ∷ ((c ∷ w) ++ render args)) ≡ b'/' ∷ ((c ∷ w) ++ render args) =
        laws.trimmed_visible b'/' _ laws.is_space_slash
          (lower_line_IsVisibleLast (c ∷ w) args lower) in
      rw (
        kept,
        name_of_line (c ∷ w) args lower,
        laws.to_lower_ascii (c ∷ w) (all_lower-All (c ∷ w) lower),
        found,
        arguments_of_line (c ∷ w) args lower h,
      )

  -- The line `/name` followed by quoted arguments is parsed to the command of that name, with
  -- the name, the arguments in order and the line itself, for every command and every list of
  -- non-empty arguments.
  pub parse-line :
      (type : CommandType) (args : List QString)
      → All IsNonEmpty args
      → parse qt (b'/' ∷ (command_type_name type ++ render args))
        ≡ success (record {
          type = type;
          name = command_type_name type;
          arguments = args;
          original_line = b'/' ∷ (command_type_name type ++ render args);
        })
  parse-line type args h =
      parse_word (command_type_name type) type args (command_type_name-is_lower_word type)
        (command_type_from_name-name laws type) h
