-- ===== src/Dashboard/Drawings.antt =====
-- The drawings of the card in flight, and that the latest one is of what is wanted through what the view does.
use sbm.Base.{
  ℕ, suc, ◌≤◌, ◌≡◌, ◌≢◌, refl, ap, ◌∙◌, ◌⊎◌, inl, inr, false, Option, none, some, List, [], ◌∷◌,
  ◌++◌, ◌==◌, get_elem?, erase_idx, All, All-append, All-erase_idx, All-get_elem?, All_map,
  sum_by-append, arith, Bool-cases,
}
use sbm.Base.Text.{Text}
use sbm.Async.{Sys, call, step, step-call, fulfilled}
use sbm.Latest.{fresh, Other, Asks_of_Other, weight, count_at, count_at-erase_idx, Old, Asks}
use sbm.Types.Gateway.{Dashboard}
use sbm.Dashboard.{SubFormat, format_sub_url}
use sbm.Dashboard.View.{
  View, Waiting, listed, rendered, returned, server_listed, refreshed, posted, drawn, Body, Reply,
  select_sub_format, draw_done, Action, format_clicked, handle, resume,
}
use sbm.Dashboard.Kept.{Same, Plain, NoRender, Kept, Heard, Elsewhere, handle-Kept, resume-Kept}

-- A drawing in flight: its number, and the url and the name on the card.
abbrev pub tag_of : Waiting → Option (ℕ × (Text × Text))
tag_of (drawn n url name) = some (n, (url, name))
tag_of _ = none

-- What the card should have: the url in the chosen format, and the name.
abbrev pub wanted : Dashboard → View → Text × Text
wanted d v = (format_sub_url d.subscription_url v.sub_format, d.subscription_name)

module _ (card : Text × Text → Text) (d : Dashboard) where
  -- The latest drawing is of what is wanted, and is in flight unless its card is shown.
  pub record Latest (s : Sys View Waiting) : Type 0 where
    pub shows_d : Same d s.state.data_shown
    pub lives : s.state.disposed ≡ false
    pub no_render : All NoRender s.waiting
    pub old : All (λ c. Old s.state.qr_revision (tag_of c)) s.waiting
    pub asks : All (λ c. Asks s.state.qr_revision (wanted d s.state) (tag_of c)) s.waiting
    pub drawing :
        (s.state.qr ≡ card (wanted d s.state)) ⊎ (1 ≤ count_at tag_of s.state.qr_revision s.waiting)

  Same-some : (o : Option Dashboard) → Same d o → (x : Dashboard) × (o ≡ some x) × Same d (some x)
  Same-some none h = absurd h
  Same-some (some x) h = (x, refl, h)

  select-drawn :
      (f : SubFormat) (v : View) (x : Dashboard)
      → v.data_shown ≡ some x
      → Same d (some x)
      → select_sub_format f v ≡ (
        record v { sub_format = f; qr_revision = suc v.qr_revision },
        drawn (suc v.qr_revision) (format_sub_url d.subscription_url f) d.subscription_name ∷ [],
      )
  unfolding select_sub_format
  select-drawn f v x h k = rw (← k.0, ← k.1) (ground arith)

  pub clicks-Latest :
      (s : Sys View Waiting) (f : SubFormat)
      → Latest s
      → Latest (step handle resume s (call (format_clicked f)))
  unfolding handle
  clicks-Latest s f h =
      let n = s.state.qr_revision in
      let w = record s.state { sub_format = f; qr_revision = suc n } in
      let last = drawn (suc n) (format_sub_url d.subscription_url f) d.subscription_name in
      let (x, e, x_same) = Same-some s.state.data_shown h.shows_d in
      let (o, z, other) = fresh tag_of n (suc n) s.waiting h.old (omega arith) in
      let k =
        All_map (λ c. Other (suc n) (tag_of c)) (λ c. Asks (suc n) (wanted d w) (tag_of c))
          s.waiting (λ c. Asks_of_Other (suc n) (wanted d w) (tag_of c)) other in
      let after : Latest (record { state = w; waiting = s.waiting ++ last ∷ [] }) = record {
        shows_d = h.shows_d;
        lives = h.lives;
        no_render = All-append NoRender s.waiting (last ∷ []) h.no_render (tt, tt);
        old = All-append (λ c. Old (suc n) (tag_of c)) s.waiting (last ∷ []) o (omega arith, tt);
        asks =
            All-append (λ c. Asks (suc n) (wanted d w) (tag_of c)) s.waiting (last ∷ []) k
              (λ e. refl, tt);
        drawing =
            inr (
              ground (arith, sum_by-append (λ c. weight (suc n) (tag_of c)) s.waiting (last ∷ [])));
      } in
      rw (step-call handle resume s (format_clicked f), select-drawn f s.state x e x_same) after

  draw_done_latest :
      (n : ℕ) (b : Body) (now : ℕ) (v : View)
      → v.disposed ≡ false
      → n ≡ v.qr_revision
      → draw_done n (fulfilled b, now) v ≡ record v { qr = b.as_card }
  unfolding draw_done
  draw_done_latest n b now v h e = ground arith

  draw_done_ne :
      (n : ℕ) (b : Body) (now : ℕ) (v : View)
      → n ≢ v.qr_revision
      → draw_done n (fulfilled b, now) v ≡ v
  unfolding draw_done
  draw_done_ne n b now v e = ground arith

  pub draws-Latest :
      (s : Sys View Waiting) (i n : ℕ) (url name : Text) (b : Body) (now : ℕ)
      → Latest s
      → get_elem? s.waiting i ≡ some (drawn n url name)
      → b.as_card ≡ card (url, name)
      → Latest (record {
        state = draw_done n (fulfilled b, now) s.state;
        waiting = erase_idx s.waiting i ++ [];
      })
  unfolding draw_done
  draws-Latest s i n url name b now h here e =
      let rest = erase_idx s.waiting i in
      let m = s.state.qr_revision in
      let unrendered =
        All-append NoRender rest [] (All-erase_idx NoRender s.waiting i h.no_render) tt in
      let o =
        All-append (λ c. Old m (tag_of c)) rest []
          (All-erase_idx (λ c. Old m (tag_of c)) s.waiting i h.old) tt in
      let k =
        All-append (λ c. Asks m (wanted d s.state) (tag_of c)) rest []
          (All-erase_idx (λ c. Asks m (wanted d s.state) (tag_of c)) s.waiting i h.asks) tt in
      elim (Bool-cases (n == m)) [
        | inl same ↦
            let eq : n ≡ m = ground arith in
            let of : (url, name) ≡ wanted d s.state =
              All-get_elem? (λ c. Asks m (wanted d s.state) (tag_of c)) s.waiting i h.asks here
                eq in
            rw (draw_done_latest n b now s.state h.lives eq) (record {
              shows_d = h.shows_d;
              lives = h.lives;
              no_render = unrendered;
              old = o;
              asks = k;
              drawing = inl (e ∙ ap card of);
            })
        | inr differs ↦
            let ne : n ≢ m = ground arith in
            let light : weight {Q = Text × Text} m (some (n, (url, name))) ≡ 0 = ground arith in
            rw (draw_done_ne n b now s.state ne) (record {
              shows_d = h.shows_d;
              lives = h.lives;
              no_render = unrendered;
              old = o;
              asks = k;
              drawing = ground (
                arith,
                h.drawing,
                light,
                count_at-erase_idx tag_of m s.waiting i here,
                sum_by-append (λ c. weight m (tag_of c)) rest [],
              );
            })
      ]

  -- What draws no card has no tag.
  tag_of-plain : (c : Waiting) → Plain c → NoRender c × (tag_of c ≡ none)
  tag_of-plain (listed n caller) h = (tt, refl)
  tag_of-plain (rendered n q next url caller) h = absurd h
  tag_of-plain (returned caller o) h = (tt, refl)
  tag_of-plain (server_listed caller) h = (tt, refl)
  tag_of-plain refreshed h = (tt, refl)
  tag_of-plain (posted url m) h = (tt, refl)
  tag_of-plain (drawn n url name) h = absurd h

  -- So it is old, asks for nothing, and does not count.
  pub plain_lem :
      (n : ℕ) (q : Text × Text) (xs : List Waiting)
      → All Plain xs
      → All NoRender xs
        × All (λ c. Old n (tag_of c)) xs
        × All (λ c. Asks n q (tag_of c)) xs
        × (count_at tag_of n xs ≡ 0)
  plain_lem n q [] h = (tt, tt, tt, refl)
  plain_lem n q (c ∷ xs) h =
      let (a, b, k, z) = plain_lem n q xs h.1 in
      let (u, e) = tag_of-plain c h.0 in
      ((u, a), (rw e tt, b), (rw e tt, k), rw e (omega (arith, z)))

  -- Code that leaves the card alone keeps the latest drawing.
  Kept-Latest :
      (v : View) (xs : List Waiting) (p : View × List Waiting)
      → Latest (record { state = v; waiting = xs })
      → Kept d v p
      → Latest (record { state = p.0; waiting = xs ++ p.1 })
  Kept-Latest v xs p h k =
      let (unrendered, o, a, z) = plain_lem v.qr_revision (wanted d v) p.1 k.plain in
      record {
        shows_d = k.same_data;
        lives = rw k.same_life h.lives;
        no_render = All-append NoRender xs p.1 h.no_render unrendered;
        old = rw k.same_number (All-append (λ c. Old v.qr_revision (tag_of c)) xs p.1 h.old o);
        asks =
            rw (k.same_number, k.same_format)
              (All-append (λ c. Asks v.qr_revision (wanted d v) (tag_of c)) xs p.1 h.asks a);
        drawing =
            rw (k.same_number, k.same_format, k.same_qr)
              (elim h.drawing [
                | inl shown ↦ inl shown
                | inr one ↦ inr (
                    ground
                      (arith, one, z, sum_by-append (λ c. weight v.qr_revision (tag_of c)) xs p.1))
              ]);
      }

  plain-Latest :
      (s : Sys View Waiting) (i : ℕ) (c : Waiting)
      → Latest s
      → get_elem? s.waiting i ≡ some c
      → Plain c
      → Latest (record { state = s.state; waiting = erase_idx s.waiting i })
  plain-Latest s i c h here p =
      let n = s.state.qr_revision in
      let (u, e) = tag_of-plain c p in
      let light : weight n (tag_of c) ≡ 0 = rw e refl in
      record {
        shows_d = h.shows_d;
        lives = h.lives;
        no_render = All-erase_idx NoRender s.waiting i h.no_render;
        old = All-erase_idx (λ c. Old n (tag_of c)) s.waiting i h.old;
        asks = All-erase_idx (λ c. Asks n (wanted d s.state) (tag_of c)) s.waiting i h.asks;
        drawing = ground (arith, h.drawing, light, count_at-erase_idx tag_of n s.waiting i here);
      }

  pub other_settles :
      (s : Sys View Waiting) (i : ℕ) (r : Reply) (c : Waiting)
      → Latest s
      → get_elem? s.waiting i ≡ some c
      → Plain c
      → Heard d c r
      → Latest (record {
        state = (resume c r s.state).0;
        waiting = erase_idx s.waiting i ++ (resume c r s.state).1;
      })
  other_settles s i r c h here p a =
      Kept-Latest s.state (erase_idx s.waiting i) (resume c r s.state) (plain-Latest s i c h here p)
        (resume-Kept d c r s.state p a h.shows_d)

  pub other_calls :
      (s : Sys View Waiting) (k : Action)
      → Latest s
      → Elsewhere k
      → Latest (step handle resume s (call k))
  other_calls s k h e =
      rw (step-call handle resume s k)
        (Kept-Latest s.state s.waiting (handle k s.state) h (handle-Kept d k s.state e h.shows_d))
