-- ===== src/Logging/Handlers.antt =====
-- Which handlers are left once logging is configured, and once it is configured again.
use pydblog.Prelude.{
  ℕ, ◌≡◌, refl, ap, ◌∙◌, Bool, true, false, not, Option, List, [], ◌∷◌, ◌++◌, any, keep, All, arith,
  inl, inr, Bool-cases,
}
use pydblog.Logging.{
  Handler, Logger, is_installed, same_handler, remove_handler, remove_each, new_handler,
  configure_logging,
}

-- No handler is attached twice.
abbrev pub IsDistinct : List Handler → Type 0
IsDistinct [] = Unit
IsDistinct (h ∷ handlers) =
    All (λ other. same_handler other h ≡ false) handlers × IsDistinct handlers

remove_each-skip :
    (h : Handler) (handlers installed : List Handler)
    → All (λ other. same_handler other h ≡ false) installed
    → remove_each (h ∷ handlers) installed ≡ h ∷ remove_each handlers installed
remove_each-skip h handlers [] apart = refl
remove_each-skip h handlers (i ∷ installed) (here, rest) =
    rw here (remove_each-skip h (remove_handler handlers i) installed rest)

keep-All :
    (p : Handler → Bool) (P : Handler → Type 0) (handlers : List Handler)
    → All P handlers
    → All P (keep p handlers)
keep-All p P [] h = tt
keep-All p P (x ∷ handlers) (here, rest) = elim (Bool-cases (p x)) [
  | inl kept ↦ rw kept (here, keep-All p P handlers rest)
  | inr left ↦ rw left (keep-All p P handlers rest)
]

same_handler_refl : (h : Handler) → same_handler h h ≡ true
same_handler_refl h = ground arith

-- The handlers that the loop leaves.
remove_each-keep :
    (handlers : List Handler)
    → IsDistinct handlers
    → remove_each handlers (keep is_installed handlers) ≡ keep (λ h. not (is_installed h)) handlers
remove_each-keep [] apart = refl
remove_each-keep (h ∷ handlers) (here, rest) = elim (Bool-cases (is_installed h)) [
  | inl ours ↦
      let gone : remove_handler (h ∷ handlers) h ≡ handlers = rw (same_handler_refl h) refl in
      rw ours (
        ap (λ hs. remove_each hs (keep is_installed handlers)) gone
        ∙ remove_each-keep handlers rest)
  | inr theirs ↦ rw theirs (
      remove_each-skip h handlers (keep is_installed handlers)
        (keep-All is_installed _ handlers here)
      ∙ ap (λ hs. h ∷ hs) (remove_each-keep handlers rest))
]

any-keep :
    (p q : Handler → Bool) (handlers : List Handler)
    → any p handlers ≡ false
    → any p (keep q handlers) ≡ false
any-keep p q [] h = refl
any-keep p q (x ∷ handlers) h = ground (arith, any-keep p q handlers)

handlers_left :
    (identity : ℕ) (verbose : Bool) (stream : Option ℕ) (logger : Logger)
    → IsDistinct logger.handlers
    → any (same_handler (new_handler identity stream)) logger.handlers ≡ false
    → (configure_logging identity verbose stream logger).handlers
      ≡ keep (λ h. not (is_installed h)) logger.handlers ++ (new_handler identity stream ∷ [])
unfolding configure_logging
handlers_left identity verbose stream logger apart fresh =
    rw
      (
        remove_each-keep logger.handlers apart,
        any-keep (same_handler (new_handler identity stream)) (λ h. not (is_installed h))
            logger.handlers fresh,
      )
      refl

installed_append :
    (handlers : List Handler) (h : Handler)
    → is_installed h ≡ true
    → keep is_installed (keep (λ x. not (is_installed x)) handlers ++ (h ∷ [])) ≡ h ∷ []
installed_append [] h ours = rw ours refl
installed_append (x ∷ handlers) h ours = elim (Bool-cases (is_installed x)) [
  | inl mine ↦ rw mine (installed_append handlers h ours)
  | inr theirs ↦ rw (theirs, theirs) (installed_append handlers h ours)
]

new_handler-is_installed :
    (identity : ℕ) (stream : Option ℕ) → is_installed (new_handler identity stream) ≡ true
unfolding is_installed
new_handler-is_installed identity stream = refl

-- However often logging was configured before, configuring it leaves the handlers that the
-- application attached, in their order, and behind them the one new handler of the package, which is
-- then the only one of the package, if no handler was attached twice and the new one is none of them.
pub configure_logging-handlers :
    (identity : ℕ) (verbose : Bool) (stream : Option ℕ) (logger : Logger)
    → IsDistinct logger.handlers
    → any (same_handler (new_handler identity stream)) logger.handlers ≡ false
    → ((configure_logging identity verbose stream logger).handlers
        ≡ keep (λ h. not (is_installed h)) logger.handlers ++ (new_handler identity stream ∷ []))
      × (keep is_installed (configure_logging identity verbose stream logger).handlers
          ≡ new_handler identity stream ∷ [])
configure_logging-handlers identity verbose stream logger apart fresh =
    let left = handlers_left identity verbose stream logger apart fresh in
    (
      left,
      ap (λ hs. keep is_installed hs) left
          ∙ installed_append logger.handlers (new_handler identity stream)
              (new_handler-is_installed identity stream),
    )
