-- ===== src/Api/Texts.antt =====
-- internal/api/handlers.go: the fixed parts of the two pages of the web interface, with every byte
-- of their text.
use proxy_rfc.Base.{Bool, true, false, [], ◌∷◌, ◌++◌, Bytes, codes}

unfoldable pub login_form_html : Bytes
login_form_html =
    codes "<!DOCTYPE html>\n"
    ++ codes "<html>\n"
    ++ codes "<head>\n"
    ++ codes "    <meta charset=\"utf-8\">\n"
    ++ codes "    <meta name=\"viewport\" content=\"width=device-width, initial-scale=1\">\n"
    ++ codes "    <title>Login - RFC-2217 Proxy</title>\n"
    ++ codes "    <style>\n"
    ++ codes "        * { box-sizing: border-box; }\n"
    ++ codes
        "        body { font-family: -apple-system, BlinkMacSystemFont, \"Segoe UI\", Roboto, monospace; margin: 0; padding: 20px; background: #1a1a2e; color: #eee; display: flex; justify-content: center; align-items: center; min-height: 100vh; }\n"
    ++ codes
        "        .login-box { background: #16213e; padding: 40px; border-radius: 12px; width: 100%; max-width: 400px; }\n"
    ++ codes
        "        h1 { color: #0f0; margin: 0 0 30px 0; text-align: center; font-size: 1.5em; }\n"
    ++ codes
        "        label { display: block; color: #888; margin-bottom: 5px; font-size: 0.9em; }\n"
    ++ codes
        "        input[type=\"text\"], input[type=\"password\"] { width: 100%; padding: 12px; margin-bottom: 20px; background: #0f3460; border: 1px solid #333; border-radius: 6px; color: #fff; font-size: 1em; }\n"
    ++ codes
        "        input[type=\"text\"]:focus, input[type=\"password\"]:focus { outline: none; border-color: #0cf; }\n"
    ++ codes
        "        button { width: 100%; padding: 12px; background: #0a3; color: #fff; border: none; border-radius: 6px; font-size: 1em; cursor: pointer; }\n"
    ++ codes "        button:hover { background: #0b4; }\n"
    ++ codes "        .back { text-align: center; margin-top: 20px; }\n"
    ++ codes "        .back a { color: #0cf; text-decoration: none; }\n"
    ++ codes "    </style>\n"
    ++ codes "</head>\n"
    ++ codes "<body>\n"
    ++ codes "    <div class=\"login-box\">\n"
    ++ codes "        <h1>RFC-2217 Proxy Login</h1>\n"
    ++ codes "        <form method=\"POST\" action=\"/login\">\n"
    ++ codes "            <label>Username</label>\n"
    ++ codes "            <input type=\"text\" name=\"username\" required autofocus>\n"
    ++ codes "            <label>Password</label>\n"
    ++ codes "            <input type=\"password\" name=\"password\" required>\n"
    ++ codes "            <button type=\"submit\">Login</button>\n"
    ++ codes "        </form>\n"
    ++ codes "        <div class=\"back\"><a href=\"/\">"
    ++ (0xe2 ∷ 0x86 ∷ 0x90 ∷ [])
    ++ codes " Back to Dashboard</a></div>\n"
    ++ codes "    </div>\n"
    ++ codes "</body>\n"
    ++ codes "</html>"

abbrev pub login_button : Bool → Bytes
login_button false = codes "<a href=\"/login\" class=\"btn-login\">Login</a>"
login_button true =
    codes "<span class=\"logged-in\">"
    ++ (0xe2 ∷ 0x97 ∷ 0x8f ∷ [])
    ++ codes " Logged in</span> <a href=\"/logout\" class=\"btn-logout\">Logout</a>"

abbrev pub page_head : Bytes
page_head =
    codes "<!DOCTYPE html>\n"
    ++ codes "<html>\n"
    ++ codes "<head>\n"
    ++ codes "    <meta charset=\"utf-8\">\n"
    ++ codes "    <meta name=\"viewport\" content=\"width=device-width, initial-scale=1\">\n"
    ++ codes "    <title>RFC-2217 Proxy</title>\n"
    ++ codes "    <meta http-equiv=\"refresh\" content=\"5\">\n"
    ++ codes "    <style>\n"
    ++ codes "        * { box-sizing: border-box; }\n"
    ++ codes
        "        body { font-family: -apple-system, BlinkMacSystemFont, \"Segoe UI\", Roboto, monospace; margin: 0; padding: 20px; background: #1a1a2e; color: #eee; }\n"
    ++ codes
        "        .header { display: flex; justify-content: space-between; align-items: center; margin-bottom: 20px; }\n"
    ++ codes "        h1 { color: #0f0; margin: 0; }\n"
    ++ codes
        "        h2 { color: #0cf; margin-top: 30px; border-bottom: 1px solid #333; padding-bottom: 5px; }\n"
    ++ codes "        .stats { display: flex; gap: 20px; margin: 20px 0; }\n"
    ++ codes
        "        .stat { background: #16213e; padding: 15px 25px; border-radius: 8px; border-left: 4px solid #0f0; }\n"
    ++ codes "        .stat-value { font-size: 2em; font-weight: bold; color: #0f0; }\n"
    ++ codes "        .stat-label { color: #888; font-size: 0.9em; }\n"
    ++ codes
        "        table { width: 100%; border-collapse: collapse; margin-top: 10px; background: #16213e; border-radius: 8px; overflow: hidden; }\n"
    ++ codes
        "        th, td { padding: 12px 15px; text-align: left; border-bottom: 1px solid #333; }\n"
    ++ codes
        "        th { background: #0f3460; color: #0cf; font-weight: normal; text-transform: uppercase; font-size: 0.85em; }\n"
    ++ codes "        tr:hover { background: #1a1a3e; }\n"
    ++ codes "        .badge { padding: 3px 8px; border-radius: 4px; font-size: 0.85em; }\n"
    ++ codes "        .badge-green { background: #0a3; color: #fff; }\n"
    ++ codes "        .badge-yellow { background: #a80; color: #fff; }\n"
    ++ codes
        "        .empty { color: #666; font-style: italic; padding: 20px; text-align: center; }\n"
    ++ codes "        .refresh { color: #666; font-size: 0.8em; }\n"
    ++ codes
        "        .btn-terminate { background: #a00; color: #fff; border: none; padding: 5px 10px; border-radius: 4px; cursor: pointer; font-size: 0.85em; }\n"
    ++ codes "        .btn-terminate:hover { background: #c00; }\n"
    ++ codes
        "        .btn-login { background: #0a3; color: #fff; padding: 8px 16px; border-radius: 6px; text-decoration: none; font-size: 0.9em; }\n"
    ++ codes "        .btn-login:hover { background: #0b4; }\n"
    ++ codes
        "        .btn-logout { color: #f66; text-decoration: none; font-size: 0.9em; margin-left: 10px; }\n"
    ++ codes "        .logged-in { color: #0f0; font-size: 0.9em; }\n"
    ++ codes "        .masked { color: #666; font-style: italic; }\n"
    ++ codes "        .auth-section { display: flex; align-items: center; gap: 10px; }\n"
    ++ codes "    </style>\n"
    ++ codes "</head>\n"
    ++ codes "<body>\n"
    ++ codes "    <div class=\"header\">\n"
    ++ codes "        <div>\n"
    ++ codes "            <h1>RFC-2217 NAT Proxy</h1>\n"
    ++ codes "            <p class=\"refresh\">Auto-refresh: 5s</p>\n"
    ++ codes "        </div>\n"
    ++ codes "        <div class=\"auth-section\">\n"
    ++ codes "            "

abbrev pub devices_label : Bytes
devices_label =
    codes "\n"
    ++ codes "        </div>\n"
    ++ codes "    </div>\n"
    ++ codes "\n"
    ++ codes "    <div class=\"stats\">\n"
    ++ codes "        <div class=\"stat\">\n"
    ++ codes "            <div class=\"stat-value\">"

abbrev pub sessions_label : Bytes
sessions_label =
    codes "</div>\n"
    ++ codes "            <div class=\"stat-label\">Devices Connected</div>\n"
    ++ codes "        </div>\n"
    ++ codes "        <div class=\"stat\">\n"
    ++ codes "            <div class=\"stat-value\">"

abbrev pub devices_head : Bytes
devices_head =
    codes "</div>\n"
    ++ codes "            <div class=\"stat-label\">Active Sessions</div>\n"
    ++ codes "        </div>\n"
    ++ codes "    </div>\n"
    ++ codes "\n"
    ++ codes "    <h2>Devices</h2>\n"
    ++ codes "    <table>\n"
    ++ codes "        <tr>\n"
    ++ codes "            <th>ID</th>\n"
    ++ codes "            <th>Remote Address</th>\n"
    ++ codes "            <th>Registered</th>\n"
    ++ codes "            <th>Status</th>\n"
    ++ codes "        </tr>"

abbrev pub sessions_head : Bytes
sessions_head =
    codes "</table>\n"
    ++ codes "\n"
    ++ codes "    <h2>Sessions</h2>\n"
    ++ codes "    <table>\n"
    ++ codes "        <tr>\n"
    ++ codes "            <th>Session ID</th>\n"
    ++ codes "            <th>Device</th>\n"
    ++ codes "            <th>Client</th>\n"
    ++ codes "            <th>Started</th>\n"
    ++ codes "            <th>Duration</th>\n"
    ++ codes "            <th>Traffic</th>"

abbrev pub terminate_script : Bytes
terminate_script =
    codes "\n"
    ++ codes "    <script>\n"
    ++ codes "    function terminateSession(id) {\n"
    ++ codes "        if (!confirm('Terminate session ' + id + '?')) return;\n"
    ++ codes "        fetch('/api/v1/sessions/' + id, {method: 'DELETE'})\n"
    ++ codes
        "            .then(r => { if (r.ok) location.reload(); else alert('Failed to terminate session'); })\n"
    ++ codes "            .catch(e => alert('Error: ' + e));\n"
    ++ codes "    }\n"
    ++ codes "    </script>"

abbrev pub page_end : Bytes
page_end = codes "\n" ++ codes "</body>\n" ++ codes "</html>"
