-- ===== src/Pipeline/MetaInfo.antt =====
-- Properties by name, and what an upload passes on.
use wookie.Base.{
  ◌>>=◌, ◌≡◌, refl, ap, ◌∙◌, Bool, none, some, [], ◌∷◌, if◌then◌else◌, Str, nat_ord, str_ord,
  str_eq, str_eq_iff, same_iff, find, find-insert, ok, arith, Option-cases, inl, inr, str_compare,
}
use wookie.MsgPack.{Codec, RoundTrips, raw, to_str}
use wookie.Pipeline.{
  Info, unpacked, set_value, value_as, value, set_body, body, set_url, url, MetaInfoPipeline, Event,
  exec, write, close, push, push_internal, finish, ok_literal, exec_context,
}

module _ (c : Codec) (r : RoundTrips c) where
  -- If msgpack gives back what it is given: after `set_value`, a name has the new value if it is the
  -- name that was set and had none before, and else the value that it had: a second `set_value` of a
  -- name changes nothing.
  pub value-set_value :
      (k name v : Str) (m : Info c)
      → value c k (set_value c name v m) ≡ elim (find name m) [
        | none ↦ if str_eq k name then ok v else value c k m
        | some bytes ↦ value c k m
      ]
  unfolding value value_as set_value
  value-set_value k name v m =
      ap (unpacked c [] to_str) (find-insert k name (c.pack (raw v)) m)
      ∙ elim (Option-cases (find name m)) [
        | inl missing ↦
            ground (
              arith,
              missing,
              same_iff k name,
              str_eq_iff k name,
              ap (λ o. o >>= to_str) (r (raw v)),
            )
        | inr (bytes, held) ↦ ground (arith, held, same_iff k name, Option-cases (find k m))
      ]

  -- The information that an upload of `text` under `that_url` hands to the next application has this
  -- url and this text, and `push` of it sends it on under its url; if that fails, the response is an
  -- error, and else the application's queue is told and the response is written and closed.
  push-set_body :
      (p : MetaInfoPipeline c) (that_url text : Str) (failed : Bool)
      → (let info = set_body c text (set_url c that_url []) in
          (url c info ≡ ok that_url)
          × (body c info ≡ ok text)
          × (push c p info failed
              ≡ ok (
                  exec that_url p.m_next_name info
                  ∷ (if failed
                      then Event.error 100 ∷ []
                      else exec_context p.m_current_name ∷ write (ok_literal c) ∷ close ∷ []))))
  unfolding push url body set_url set_body value value_as set_value str_compare push_internal finish
  push-set_body p that_url text failed = rw (r (raw that_url), r (raw text)) (refl, refl, refl)
