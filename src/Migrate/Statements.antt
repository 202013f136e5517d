-- ===== src/Migrate/Statements.antt =====
-- cmd/hm-db-migrate/main.go: the text of a migration and the statements that it is split into.
use mathlib.Core.List.{append_assoc, append-nil}
use home_metrics.Base.{
  ℕ, zero, suc, ◌≤◌, ◌<◌, ◌≡◌, ◌≢◌, refl, sym, ap, ◌∙◌, Bool, true, false, Bool-cases, inl, inr,
  List, [], ◌∷◌, ◌++◌, arith, length, take, drop, take-append-drop, length-drop, Option, none, some,
  ◌==◌, if◌then◌else◌,
}
use home_metrics.Base.Text.{Text}
use home_metrics.Migrate.{
  Mode, plain, single_quote, double_quote, line_comment, block_comment, dollar_quote, Result, ok,
  err, out_of_fuel, Turn, on, open_tag, prefixed, tag_loop, read_dollar_quote_tag, turn, keep,
  finish, kept_before, split_loop, split_sql_statements,
}

-- Independent of the code: pieces joined by semicolons, and the pieces that are not blank, trimmed.
unfoldable pub joined : Text → List Text → Text
joined p [] = p
joined p (q ∷ ps) = p ++ b';' ∷ joined q ps

unfoldable pub kept : List Text → List Text
kept [] = []
kept (p ∷ ps) = keep p (kept ps)

turn-ends :
    (mode : Mode) (c : ℕ) (s : Text)
    → (turn mode c s).ends ≡ true
    → (c ≡ b';') × ((turn mode c s).step ≡ 1)
unfolding turn
turn-ends plain c s h = ground arith
turn-ends single_quote c s h = ground arith
turn-ends double_quote c s h = ground arith
turn-ends line_comment c s h = ground arith
turn-ends block_comment c s h = ground arith
turn-ends (dollar_quote tag) c s h = ground arith

split_loop-end :
    (fuel : ℕ) (mode : Mode) (current : Text) (c : ℕ) (s : Text)
    → (turn mode c s).ends ≡ true
    → split_loop (suc fuel) mode current (c ∷ s)
      ≡ kept_before current (split_loop fuel (turn mode c s).mode [] s)
unfolding split_loop
split_loop-end fuel mode current c s e = rw (split_loop, e) (rw ((turn-ends mode c s e).1) refl)

split_loop-on :
    (fuel : ℕ) (mode : Mode) (current : Text) (c : ℕ) (s : Text)
    → (turn mode c s).ends ≡ false
    → split_loop (suc fuel) mode current (c ∷ s)
      ≡ split_loop fuel
          (turn mode c s).mode
          (current ++ take (turn mode c s).step (c ∷ s))
          (drop (turn mode c s).step (c ∷ s))
unfolding split_loop
split_loop-on fuel mode current c s e = rw (split_loop, e) refl

finish-ok :
    (mode : Mode) (current : Text) (ss : List Text)
    → finish mode current ≡ ok ss
    → ss ≡ keep current []
finish-ok plain current ss h = cc
finish-ok single_quote current ss h = cc
finish-ok double_quote current ss h = cc
finish-ok line_comment current ss h = cc
finish-ok block_comment current ss h = cc
finish-ok (dollar_quote tag) current ss h = cc

kept_before-ok :
    (s : Text) (r : Result (List Text)) (ss : List Text)
    → kept_before s r ≡ ok ss
    → (rest : List Text) × (r ≡ ok rest) × (ss ≡ keep s rest)
kept_before-ok s (ok rest) ss h = (rest, refl, cc)
kept_before-ok s (err e) ss h = cc

-- The text after `current` is cut into pieces, and the statements are those kept.
abbrev IsCut : Text → Text → List Text → Type 0
IsCut current s ss =
    (p : Text) × (ps : List Text) × (joined p ps ≡ current ++ s) × (ss ≡ kept (p ∷ ps))

split_loop-IsCut :
    (fuel : ℕ) (mode : Mode) (current s : Text) (ss : List Text)
    → split_loop fuel mode current s ≡ ok ss
    → IsCut current s ss
unfolding split_loop joined kept
split_loop-IsCut zero mode current [] ss h =
    (current, [], sym (append-nil current), finish-ok mode current ss h)
split_loop-IsCut (suc fuel) mode current [] ss h =
    (current, [], sym (append-nil current), finish-ok mode current ss h)
split_loop-IsCut zero mode current (c ∷ s) ss h = cc
split_loop-IsCut (suc fuel) mode current (c ∷ s) ss h =
    let t = turn mode c s in
    elim (Bool-cases t.ends) [
      | inl e ↦
          let (rest, r, k) =
            kept_before-ok current (split_loop fuel t.mode [] s) ss
              (sym (split_loop-end fuel mode current c s e) ∙ h) in
          let (p, ps, j, l) = split_loop-IsCut fuel t.mode [] s rest r in
          (
            current,
            p ∷ ps,
            ap (λ x. current ++ b';' ∷ x) j
                ∙ ap (λ x. current ++ x ∷ s) (sym (turn-ends mode c s e).0),
            k ∙ ap (keep current) l,
          )
      | inr e ↦
          let (p, ps, j, l) =
            split_loop-IsCut fuel t.mode (current ++ take t.step (c ∷ s)) (drop t.step (c ∷ s)) ss
              (sym (split_loop-on fuel mode current c s e) ∙ h) in
          (
            p,
            ps,
            j
                ∙ append_assoc current (take t.step (c ∷ s)) (drop t.step (c ∷ s))
                ∙ ap (λ x. current ++ x) (take-append-drop t.step (c ∷ s)),
            l,
          )
    ]

finish-ne-out_of_fuel : (mode : Mode) (current : Text) → finish mode current ≢ err out_of_fuel
finish-ne-out_of_fuel plain current h = cc
finish-ne-out_of_fuel single_quote current h = cc
finish-ne-out_of_fuel double_quote current h = cc
finish-ne-out_of_fuel line_comment current h = cc
finish-ne-out_of_fuel block_comment current h = cc
finish-ne-out_of_fuel (dollar_quote tag) current h = cc

kept_before-ne-out_of_fuel :
    (s : Text) (r : Result (List Text)) → r ≢ err out_of_fuel → kept_before s r ≢ err out_of_fuel
kept_before-ne-out_of_fuel s (ok rest) n h = cc
kept_before-ne-out_of_fuel s (err e) n h = n h

-- The tag of a mode is not empty, so that its end moves the index.
abbrev IsTagged : Mode → Type 0
IsTagged (dollar_quote tag) = 0 < length tag
IsTagged _ = Unit {0}

Moves : Turn → Type 0
Moves t = (0 < t.step) × IsTagged t.mode

prefixed-open_tag : (o : Option Text) → Moves (open_tag (prefixed b'$' o))
unfolding Moves
prefixed-open_tag none = (omega arith, tt)
prefixed-open_tag (some s) = (omega arith, omega arith)

read_tag-Moves : (c : ℕ) (s : Text) → Moves (open_tag (read_dollar_quote_tag (c ∷ s)))
unfolding read_dollar_quote_tag
read_tag-Moves c s = elim (Bool-cases (c == b'$')) [
  | inl e ↦ rw e (prefixed-open_tag (tag_loop s))
  | inr e ↦ rw e (unfold Moves in (omega arith, tt))
]

if-Moves : (b : Bool) (t u : Turn) → Moves t → Moves u → Moves (if b then t else u)
if-Moves true t u h k = h
if-Moves false t u h k = k

on-Moves : (mode : Mode) (n : ℕ) → IsTagged mode → 0 < n → Moves (on mode n)
unfolding Moves
on-Moves mode n h l = (l, h)

end-Moves : Moves (record { mode = plain; step = 1; ends = true })
unfolding Moves
end-Moves = (omega arith, tt)

turn-Moves : (mode : Mode) (c : ℕ) (s : Text) → IsTagged mode → Moves (turn mode c s)
unfolding turn
turn-Moves line_comment c s h =
    if-Moves _ _ _ (on-Moves plain 1 tt (omega arith)) (on-Moves line_comment 1 tt (omega arith))
turn-Moves block_comment c s h =
    if-Moves _ _ _ (on-Moves plain 2 tt (omega arith)) (on-Moves block_comment 1 tt (omega arith))
turn-Moves (dollar_quote tag) c s h =
    if-Moves _ _ _ (on-Moves plain (length tag) tt h)
      (on-Moves (dollar_quote tag) 1 h (omega arith))
turn-Moves single_quote c s h =
    if-Moves _ _ _
      (if-Moves _ _ _ (on-Moves single_quote 2 tt (omega arith))
        (on-Moves plain 1 tt (omega arith)))
      (on-Moves single_quote 1 tt (omega arith))
turn-Moves double_quote c s h =
    if-Moves _ _ _
      (if-Moves _ _ _ (on-Moves double_quote 2 tt (omega arith))
        (on-Moves plain 1 tt (omega arith)))
      (on-Moves double_quote 1 tt (omega arith))
turn-Moves plain c s h = if-Moves _ _ _ (on-Moves line_comment 2 tt (omega arith)) (
    if-Moves _ _ _ (on-Moves block_comment 2 tt (omega arith)) (
      if-Moves _ _ _ (on-Moves single_quote 1 tt (omega arith)) (
        if-Moves _ _ _ (on-Moves double_quote 1 tt (omega arith)) (
          if-Moves _ _ _ (read_tag-Moves c s)
            (if-Moves _ _ _ end-Moves (on-Moves plain 1 tt (omega arith)))))))

split_loop-ne-out_of_fuel :
    (fuel : ℕ) (mode : Mode) (current s : Text)
    → IsTagged mode
    → length s ≤ fuel
    → split_loop fuel mode current s ≢ err out_of_fuel
unfolding split_loop Moves
split_loop-ne-out_of_fuel zero mode current [] m l h = finish-ne-out_of_fuel mode current h
split_loop-ne-out_of_fuel (suc fuel) mode current [] m l h = finish-ne-out_of_fuel mode current h
split_loop-ne-out_of_fuel zero mode current (c ∷ s) m l h = absurd (omega arith)
split_loop-ne-out_of_fuel (suc fuel) mode current (c ∷ s) m l h =
    let t = turn mode c s in
    let moves = turn-Moves mode c s m in
    elim (Bool-cases t.ends) [
      | inl e ↦
          kept_before-ne-out_of_fuel current (split_loop fuel t.mode [] s)
            (split_loop-ne-out_of_fuel fuel t.mode [] s moves.1 (omega arith))
            (sym (split_loop-end fuel mode current c s e) ∙ h)
      | inr e ↦
          split_loop-ne-out_of_fuel fuel t.mode (current ++ take t.step (c ∷ s))
            (drop t.step (c ∷ s)) moves.1 (omega (arith, length-drop t.step (c ∷ s), moves.0))
            (sym (split_loop-on fuel mode current c s e) ∙ h)
    ]

-- The scan of a migration ends, whatever it contains: as many turns as the text has characters are
-- enough, since each turn moves the index, also the one at the end of a dollar quote, whose tag is never
-- empty.
pub split_sql_statements-ends : (sql : Text) → split_sql_statements sql ≢ err out_of_fuel
unfolding split_sql_statements
split_sql_statements-ends sql = split_loop-ne-out_of_fuel (length sql) plain [] sql tt (omega arith)

-- If the scan of a migration gives statements, then the text of the migration is a sequence of pieces
-- with semicolons between them, of which the statements are those that are not blank, trimmed and in
-- order: no text but blanks and separators is left out.
pub split_sql_statements-pieces :
    (sql : Text) (ss : List Text)
    → split_sql_statements sql ≡ ok ss
    → (p : Text) × (ps : List Text) × (joined p ps ≡ sql) × (ss ≡ kept (p ∷ ps))
unfolding split_sql_statements
split_sql_statements-pieces sql ss h = split_loop-IsCut (length sql) plain [] sql ss h
