-- ===== src/Shell/Desktop.antt =====
-- The terminal's window and the main loop of kernel/kernel.c. `hlt` waits for an interrupt: a
-- round starts with the state that the interrupt handlers have left.
use lons_os.Base.{
  ℕ, zero, suc, ◌+◌, ◌-◌, ◌*◌, ◌/◌, Bool, not, ◌&&◌, List, [], ◌∷◌, ◌++◌, Option, none, some, leb,
  ◌==◌, if◌then◌else◌,
}
use lons_os.Base.Bits.{test_bit}
use lons_os.Base.Text.{codes, rule, ◌|>◌}
use lons_os.Machine.{u32, sub64}
use lons_os.Heap.{Run, ok, out_of_fuel, ◌>>=◌}
use lons_os.Ata.{ata_is_present}
use lons_os.Pit.{pit_get_ticks, pit_hz}
use lons_os.Rtc.{rtc_read, rtc_format_time}
use lons_os.Keyboard.{Keyboard, kbd_haschar, kbd_getchar}
use lons_os.Mouse.{Mouse, mouse_poll}
use lons_os.Mouse.Pointer.{SavedCursor, to_word, draw_cursor, clear_cursor}
use lons_os.Framebuffer.{Framebuffer, fb_fill_rect, fb_print_at}
use lons_os.Framebuffer.Console.{sub32}
use lons_os.Gui.{
  Gui, Window, max_windows, menubar_h, titlebar_h, gui_menubar, gui_menufg, gui_winfg, signed_lt,
  gui_init, gui_window_create, gui_window_focus,
}
use lons_os.Shell.{Shell, Kernel, say, set_fg, run_of, green, grey, shell_prompt}
use lons_os.Shell.Cat.{c_text}
use lons_os.Shell.Commands.{say_all}
use lons_os.Shell.Keys.{shell_key}

-- The shell with the devices of the main loop, and its own variables.
pub record Desktop (D : Type 0) : Type 0 where
  pub shell : Shell D
  pub keyboard : Keyboard
  pub mouse : Mouse
  pub cursor : SavedCursor
  pub last_mouse_buttons : ℕ
  pub last_clock_tick : ℕ

abbrev with_fb : {D : Type 0} → SavedCursor × Framebuffer → Desktop D → Desktop D
with_fb (c, fb) s = record s {
  shell = record (s.shell) { gui = record (s.shell.gui) { fb = fb } };
  cursor = c;
}

abbrev pub mouse_draw_cursor : {D : Type 0} → Desktop D → Desktop D
mouse_draw_cursor s =
    with_fb (draw_cursor s.mouse.mouse_x s.mouse.mouse_y s.cursor s.shell.gui.fb) s

abbrev pub mouse_erase_cursor : {D : Type 0} → Desktop D → Desktop D
mouse_erase_cursor s = with_fb (clear_cursor s.cursor s.shell.gui.fb) s

-- The point lies in the title bar of a window that is shown; the words are signed.
unfoldable pub in_titlebar : ℕ → ℕ → Window → Bool
in_titlebar x y win =
    not (win.visible == 0)
    && not (signed_lt x win.x)
    && signed_lt x (u32 (win.x + win.w))
    && not (signed_lt y win.y)
    && signed_lt y (u32 (win.y + titlebar_h))

-- The first such window of the `n` from `i` on.
unfoldable pub titlebar_at : ℕ → ℕ → ℕ → ℕ → (ℕ → Window) → Option ℕ
titlebar_at zero i x y windows = none
titlebar_at (suc n) i x y windows =
    let later = titlebar_at n (i + 1) x y windows in
    if in_titlebar x y (windows i) then some i else later

unfoldable pub focus_found : Option ℕ → Gui → Gui
focus_found none s = s
focus_found (some wid) s = gui_window_focus (some wid) s

-- The left button is down and was not.
abbrev pub clicked : ℕ → ℕ → Bool
clicked buttons last = test_bit buttons 0 == 1 && test_bit last 0 == 0

unfoldable pub handle_mouse_click : {D : Type 0} → Desktop D → Desktop D
handle_mouse_click s =
    let m = s.mouse in
    let t = record s { last_mouse_buttons = m.mouse_buttons } in
    let g = s.shell.gui in
    let hit = titlebar_at max_windows 0 (to_word m.mouse_x) (to_word m.mouse_y) g.windows in
    if clicked m.mouse_buttons s.last_mouse_buttons
    then record t { shell = record (s.shell) { gui = focus_found hit g } }
    else t

-- The time, at the right of the menu bar.
unfoldable pub draw_clock : List ℕ → Framebuffer → Framebuffer
draw_clock text fb =
    let cx = sub32 (sub32 fb.width (8 * 8)) 16 in
    let cleared = fb_fill_rect cx 0 (8 * 8 + 8) (menubar_h - 1) gui_menubar fb in
    fb_print_at cx ((menubar_h - 16) / 2) text gui_menufg gui_menubar cleared

-- The lines under the first one in a new terminal.
abbrev pub disk_hints : List (List ℕ)
disk_hints =
    codes "  Disk ready! Try:\n"
    ∷ codes "    ls /disk          disk info\n"
    ∷ codes "    write /disk/hi.txt hello world\n"
    ∷ codes "    cat /disk/hi.txt\n"
    ∷ []

abbrev pub no_disk_hints : List (List ℕ)
no_disk_hints =
    codes "  No disk. Add to Makefile run target:\n"
    ∷ codes "    -hda disk.img\n"
    ∷ codes "  Then: make disk && make run\n"
    ∷ []

abbrev pub terminal_title : List ℕ
terminal_title = codes "Terminal"

abbrev underline : {D : Type 0} → Shell D → Shell D
underline s = s |> set_fg grey |> say (codes "  " ++ rule 37 ++ codes "\n") |> set_fg gui_winfg

module _ {D : Type 0} (k : Kernel D) where
  -- The desktop and the terminal's window, three quarters of the screen each way.
  unfoldable pub create_terminal : Shell D → Shell D
  create_terminal s =
      let g = gui_init s.gui in
      let ww = u32 (g.fb.width * 3) / 4 in
      let wh = u32 (g.fb.height * 3) / 4 in
      let wx = sub32 g.fb.width ww / 2 in
      let wy = u32 (sub32 g.fb.height wh / 2 + menubar_h / 2) in
      let (wid, created) = gui_window_create wx wy ww wh terminal_title g in
      record s { gui = gui_window_focus wid created; term_wid = wid }

  -- The welcome and the first prompt.
  unfoldable pub welcome_user : Shell D → Shell D
  welcome_user s =
      let t = s |> set_fg green |> say (codes "  Welcome to Lons OS\n") |> underline in
      let hints = if ata_is_present (k.ata s.vfs.disk) == 0 then no_disk_hints else disk_hints in
      shell_prompt (underline (say_all hints t))

  unfoldable pub update_menubar_clock : Desktop D → Run (Desktop D)
  update_menubar_clock s =
      let sh = s.shell in
      run_of (rtc_read k.io k.rtc_rounds sh.vfs.disk) >>= λ (t, d). ok (record s {
        shell = record sh {
          gui = record (sh.gui) { fb = draw_clock (c_text (rtc_format_time t)) sh.gui.fb };
          vfs = record (sh.vfs) { disk = d };
        };
      })

  -- One second or more has gone since the clock was drawn.
  unfoldable pub tick_clock : Desktop D → Run (Desktop D)
  tick_clock s =
      let nt = pit_get_ticks s.shell.pit in
      let t = mouse_erase_cursor (record s { last_clock_tick = nt }) in
      if leb pit_hz (sub64 nt s.last_clock_tick)
      then (update_menubar_clock t >>= λ u. ok (mouse_draw_cursor u))
      else ok s

  unfoldable pub poll_mouse : Desktop D → Desktop D
  poll_mouse s =
      let (changed, m) = mouse_poll s.mouse in
      let t = record s { mouse = m } in
      if changed then mouse_draw_cursor (handle_mouse_click (mouse_erase_cursor t)) else t

  -- One key: `c` is what `kbd_getchar` gives, after the cursor is erased.
  unfoldable pub press_key : ℕ → Desktop D → Run (Desktop D)
  press_key fuel s =
      let t = mouse_erase_cursor s in
      let (c, kb) = kbd_getchar t.keyboard in
      shell_key k fuel c t.shell >>= λ sh.
      ok (mouse_draw_cursor (record t { keyboard = kb; shell = sh }))

  -- The loop over the waiting keys, `keys` of them at most.
  unfoldable pub press_keys : ℕ → ℕ → Desktop D → Run (Desktop D)
  press_keys zero fuel s = if kbd_haschar s.keyboard then out_of_fuel else ok s
  press_keys (suc keys) fuel s =
      let rest = press_key fuel s >>= press_keys keys fuel in
      if kbd_haschar s.keyboard then rest else ok s

  -- One round of the main loop; 127 keys wait at most.
  unfoldable pub main_round : ℕ → Desktop D → Run (Desktop D)
  main_round fuel s = tick_clock s >>= λ t. press_keys 127 fuel (poll_mouse t)
