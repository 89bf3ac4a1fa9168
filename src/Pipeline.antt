-- ===== src/Pipeline.antt =====
-- `Chain` and `Recover` of internal/dnssrv/pipeline.go.
use mathlib.Core.List.{reverse-cons}
use dnsaur.Prelude.{◌≡◌, ◌≢◌, refl, ap, sym, ◌∙◌, Option, none, some, List, [], ◌∷◌, ◌++◌, reverse}
use dnsaur.Prelude.Bytes.{Bytes}
use dnsaur.Dns.{
  Outcome, Request, Response, Handler, Middleware, Replies, returned, panicked, servfail,
}

module _ {Addr : Type 0} where
  -- The rounds of the loop of `Chain`: the middlewares from the last to the first, each wrapped
  -- round what stands so far.
  wrap : Handler Addr → List (Middleware Addr) → Handler Addr
  wrap h [] = h
  wrap h (mw ∷ rest) = wrap (mw h) rest

  unfoldable pub chain : Handler Addr → List (Middleware Addr) → Handler Addr
  unfolding wrap
  chain terminal mws = wrap terminal (reverse mws)

  -- The deferred function of `Recover`.
  recovered : Replies → Request Addr → Outcome → Outcome
  unfolding servfail
  recovered lib req panicked = returned (some (servfail lib req)) none
  recovered lib req (returned resp err) = returned resp err

  unfoldable pub recover : Replies → Middleware Addr
  unfolding recovered
  recover lib next req = recovered lib req (next req)

  wrap-append :
      (h : Handler Addr) (xs ys : List (Middleware Addr)) → wrap h (xs ++ ys) ≡ wrap (wrap h xs) ys
  unfolding wrap
  wrap-append h [] ys = refl
  wrap-append h (x ∷ xs) ys = wrap-append (x h) xs ys

  -- The chain calls the middlewares in the order of its arguments: the first is the outermost.
  pub chain-cons :
      (terminal : Handler Addr) (mw : Middleware Addr) (mws : List (Middleware Addr))
      → chain terminal (mw ∷ mws) ≡ mw (chain terminal mws)
  unfolding chain
  chain-cons terminal mw mws =
      ap (wrap terminal) (reverse-cons mw mws)
      ∙ (wrap-append terminal (reverse mws) (mw ∷ []) ∙ last_wrap)
    where
      last_wrap : wrap (wrap terminal (reverse mws)) (mw ∷ []) ≡ mw (wrap terminal (reverse mws))
      last_wrap = unfold wrap in refl

  -- Behind `Recover`, whatever stages and terminal stand below, no query ends in a panic: one that
  -- panics is answered with the SERVFAIL of its own request, and every other outcome is passed on.
  pub chain-recover :
      (lib : Replies) (terminal : Handler Addr) (mws : List (Middleware Addr)) (req : Request Addr)
      → (chain terminal (recover lib ∷ mws) req ≢ panicked)
        × (chain terminal mws req ≡ panicked
            → chain terminal (recover lib ∷ mws) req ≡ returned (some (servfail lib req)) none)
        × ((resp : Option Response) (err : Option Bytes)
            → chain terminal mws req ≡ returned resp err
            → chain terminal (recover lib ∷ mws) req ≡ returned resp err)
  unfolding recover
  chain-recover lib terminal mws req =
      let e : chain terminal (recover lib ∷ mws) req ≡ recovered lib req (chain terminal mws req) =
        ap (λ h. h req) (chain-cons terminal (recover lib) mws) in
      (
        λ h. never (chain terminal mws req) (sym e ∙ h),
        λ h. e ∙ ap (recovered lib req) h,
        λ resp err h. e ∙ ap (recovered lib req) h,
      )
    where
      never : (out : Outcome) → recovered lib req out ≢ panicked
      never panicked h = cc
      never (returned resp err) h = cc
