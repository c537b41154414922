-- ===== src/Web/App/Templates.antt =====
-- internal/web/handlers.go: which pages `render` finds once `NewApp` has succeeded.
use tcl_script_runner.Prelude.{none, String, ◌<>◌, true, List, [], ◌∷◌, ◌≡◌, refl, sym, ap, ◌∙◌}
use tcl_script_runner.Prelude.Text.{quote}
use tcl_script_runner.Outcome.{Outcome, ok, >>=-eq-ok}
use tcl_script_runner.Runner.Host.{Host}
use tcl_script_runner.Runner.Jobs.{Runner}
use tcl_script_runner.Web.App.{
  Page, page_name, dashboard, environments, environment_form, job_log, job_detail, api_monitor,
  page, page_names, has, Services, App, parsed, load_pages, load_templates, new_app, render,
}

-- An application with a template for every page.
abbrev pub HasPages : {H : Host} → App H → Type 0
HasPages a = a.tmpls ≡ page_names

module _ (H : Host) where
  found : (p : Page) → has (page_name p) page_names ≡ true
  found (dashboard envs jobs busy) = refl
  found (environments envs msg) = refl
  found (environment_form env is_new message) = refl
  found (job_log jobs) = refl
  found (job_detail job) = refl
  found api_monitor = refl

  pub render-HasPages : (a : App H) (p : Page) → HasPages a → render H a p ≡ page p
  unfolding render
  render-HasPages a p h = rw (h, found p) refl

module _ (H : Host) (V : Services H) where
  ok_list : {a b : List String} → ◌≡◌ {A = Outcome (List String)} (ok a) (ok b) → a ≡ b
  ok_list h = cc h

  load_pages-names : (names tmpls : List String) → load_pages H V names ≡ ok tmpls → tmpls ≡ names
  unfolding load_pages
  load_pages-names [] tmpls h = cc h
  load_pages-names (name ∷ names) tmpls h =
      let (u, good, then_) =
        >>=-eq-ok (parsed H V ("parse template " <> quote name <> ": ") name) _ h in
      let (rest, more, made) = >>=-eq-ok (load_pages H V names) _ then_ in
      sym (ok_list made) ∙ ap (λ ns. name ∷ ns) (load_pages-names names rest more)

  load_templates-names : (tmpls : List String) → load_templates H V ≡ ok tmpls → tmpls ≡ page_names
  unfolding load_templates
  load_templates-names tmpls h =
      let (pages, loaded, then_) = >>=-eq-ok (load_pages H V page_names) _ h in
      let (u, good, made) = >>=-eq-ok (parsed H V "parse fragments: " "fragments") _ then_ in
      sym (ok_list made) ∙ load_pages-names page_names pages loaded

  module _ (parses : (name : String) → V.parse_template name ≡ none) where
    parsed-total : (prefix name : String) → parsed H V prefix name ≡ ok tt
    parsed-total prefix name = rw (parses name, parsed)

    load_pages-total : (names : List String) → load_pages H V names ≡ ok names
    unfolding load_pages
    load_pages-total [] = refl
    load_pages-total (name ∷ names) =
        rw (parsed-total ("parse template " <> quote name <> ": ") name, load_pages-total names)

    -- What `NewApp` gives where every template parses.
    pub new_app-total :
        (run : Runner H) (data_dir passphrase : String)
        → new_app H V run data_dir passphrase
          ≡ ok (record {
            run = run;
            data_dir = data_dir;
            passphrase = passphrase;
            tmpls = page_names;
          })
    unfolding new_app load_templates
    new_app-total run data_dir passphrase =
        rw (load_pages-total page_names, parsed-total "parse fragments: " "fragments")

  ok_app : {a b : App H} → ◌≡◌ {A = Outcome (App H)} (ok a) (ok b) → a ≡ b
  ok_app h = cc h

  pub new_app-HasPages :
      (run : Runner H) (data_dir passphrase : String) {a : App H}
      → new_app H V run data_dir passphrase ≡ ok a
      → HasPages a
  unfolding new_app
  new_app-HasPages run data_dir passphrase h =
      let (tmpls, loaded, made) = >>=-eq-ok (load_templates H V) _ h in
      ap (λ x. x.tmpls) (sym (ok_app made)) ∙ load_templates-names tmpls loaded

  -- If `NewApp` succeeds, then every page has its template, whatever data it shows.
  pub new_app-render :
      (run : Runner H) (data_dir passphrase : String) {a : App H}
      → new_app H V run data_dir passphrase ≡ ok a
      → (p : Page) → render H a p ≡ page p
  new_app-render run data_dir passphrase {a} h p =
      render-HasPages H a p (new_app-HasPages run data_dir passphrase h)
