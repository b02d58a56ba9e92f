-- ===== src/Testbench/Uart/Stream.antt =====
-- The window against the whole stream of transmitted characters.
use mints_riscv_cpu.Base.{
  ℕ, suc, ◌-◌, ◌<◌, true, ◌≡◌, ◌↔◌, sym, ap, ◌∙◌, arith, [], ◌∷◌, ◌++◌, Text, length, drop,
  length-append, length-drop, drop-append, drop-one-drop, same_text→eq, same_text_refl, le→ltb,
  drop-length_append, drop_suffix, dec_lt,
}
use mathlib.Core.List.{foldl, append-nil, append_assoc}
use mints_riscv_cpu.Testbench.Uart.{busybox_pass_token, push_char, is_pass_token}

-- The last characters of a stream, as many as the token has.
abbrev pub recent : Text → Text
recent stream = drop (length stream - 17) stream

-- What the window holds after a stream, from an empty window.
abbrev pub window_after : Text → Text
window_after stream = foldl push_char [] stream

push_char_short :
    (window : Text) (c : ℕ) → length window < 17 → push_char window c ≡ window ++ c ∷ []
unfolding push_char
push_char_short window c h =
    rw (le→ltb 17 (length (window ++ c ∷ [])) (omega (arith, length-append window (c ∷ []))))

push_char_full :
    (window : Text) (c : ℕ) → length window ≡ 17 → push_char window c ≡ drop 1 (window ++ c ∷ [])
unfolding push_char
push_char_full window c h =
    let total : length (window ++ c ∷ []) ≡ 18 = omega (arith, length-append window (c ∷ [])) in
    rw total

-- One more character keeps the window at the recent end of the stream.
pub push_char-recent :
    (stream : Text) (c : ℕ) → push_char (recent stream) c ≡ recent (stream ++ c ∷ [])
push_char-recent stream c = elim (dec_lt (length stream) 17) [
  | yes few ↦
      let none_dropped : length stream - 17 ≡ 0 = omega arith in
      let none_dropped' : length (stream ++ c ∷ []) - 17 ≡ 0 =
        omega (arith, length-append stream (c ∷ [])) in
      rw (none_dropped, none_dropped') (push_char_short stream c few)
  | no many ↦
      let k = length stream - 17 in
      let next : length (stream ++ c ∷ []) - 17 ≡ suc k =
        omega (arith, length-append stream (c ∷ [])) in
      push_char_full (recent stream) c (omega (arith, length-drop k stream))
      ∙ ap (drop 1) (sym (drop-append k stream (c ∷ []) (omega arith)))
      ∙ drop-one-drop k (stream ++ c ∷ [])
      ∙ ap (λ n. drop n (stream ++ c ∷ [])) (sym next)
]

foldl-recent :
    (before after : Text) → foldl push_char (recent before) after ≡ recent (before ++ after)
foldl-recent before [] = ap recent (sym (append-nil before))
foldl-recent before (c ∷ after) =
    ap (λ w. foldl push_char w after) (push_char-recent before c)
    ∙ foldl-recent (before ++ c ∷ []) after
    ∙ ap recent (append_assoc before (c ∷ []) after)

-- Character by character, the window is the end of the stream, of 17 characters or all there are.
pub window_after-recent : (stream : Text) → window_after stream ≡ recent stream
window_after-recent stream = foldl-recent [] stream

-- After any stream of transmitted characters the window passes the token test exactly when the
-- stream ends in the token, although the window keeps only the last characters.
pub is_pass_token-window_iff :
    (stream : Text)
    → (is_pass_token (window_after stream) ≡ true)
      ↔ ((before : Text) × (stream ≡ before ++ busybox_pass_token))
unfolding is_pass_token
is_pass_token-window_iff stream = (
  λ e.
      let same = same_text→eq (window_after stream) busybox_pass_token e in
      let (before, split) = drop_suffix (length stream - 17) stream in
      (before, split ∙ ap (λ w. before ++ w) (sym (window_after-recent stream) ∙ same)),
  λ (before, split).
      let start : length stream - 17 ≡ length before =
        omega (arith, ap length split, length-append before busybox_pass_token) in
      let window : window_after stream ≡ busybox_pass_token =
        window_after-recent stream
        ∙ ap (λ n. drop n stream) start
        ∙ ap (drop (length before)) split
        ∙ drop-length_append before busybox_pass_token in
      rw window (same_text_refl busybox_pass_token),
)
